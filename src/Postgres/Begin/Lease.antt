-- ===== src/Postgres/Begin/Lease.antt =====
-- The leases that BeginProcessing returns.
use mentor_ia_worker.Prelude.{
  ℕ, suc, ◌≡◌, refl, sym, ap, ◌∙◌, Bool, true, false, ◌&&◌, some, arith, if◌then◌else◌, &&-true,
  update_where,
}
use mentor_ia_worker.Domain.{Message, ProcessingLease}
use mentor_ia_worker.Domain.Errors.{Result, ok, err, wrap, sentinel, no_rows, errors_is}
use mentor_ia_worker.Postgres.Tables.{Server, InsightJob, Database, job_at}
use mentor_ia_worker.Postgres.Rows.{Repository, whole_seconds, has_ids, update_jobs}
use mentor_ia_worker.Postgres.Rows.Laws.{job_key, KeysUnique, update_jobs-missed, update_jobs-ok}
use mentor_ia_worker.Postgres.Session.{World, statement, throw}
use mentor_ia_worker.Postgres.Session.Laws.{statement-ok}
use mentor_ia_worker.Postgres.Begin.{
  is_free, claimed, claim_job, acquired, lease_of, not_acquired, after_claim, claim_with,
  begin_processing,
}

-- The identifiers of a message, converted.
pub record Names (server : Server) (m : Message) (i a : ℕ) : Type 0 where
  pub job : server.uuid_param m.job_id ≡ ok i
  pub aluno : server.uuid_param m.aluno_id ≡ ok a

module _ (server : Server) (m : Message) (i a token seconds : ℕ) (names : Names server m i a) where
  abbrev claims : ℕ → InsightJob → Bool
  claims now j = has_ids i a j && is_free now j

  claims-id : (now : ℕ) (j : InsightJob) → claims now j ≡ true → j.id ≡ i
  claims-id now j h = ground arith

  claims-refused : (now : ℕ) (j : InsightJob) → is_free now j ≡ false → claims now j ≡ false
  claims-refused now j h = ground arith

  claim_job-update :
      (w : World)
      → claim_job server m token seconds w
        ≡ update_jobs (claims w.now) (claimed w.now token seconds) w
  unfolding claim_job
  claim_job-update w = rw (names.job, names.aluno)

  -- The claim misses a job that is not free.
  pub claim_job-missed :
      (w : World)
      → KeysUnique job_key w.db.insight_jobs
      → ((j : InsightJob) → job_at i w.db.insight_jobs ≡ some j → is_free w.now j ≡ false)
      → claim_job server m token seconds w ≡ (err (sentinel no_rows), w.db)
  claim_job-missed w unique taken =
      claim_job-update w
      ∙ update_jobs-missed (claims w.now) _ i (claims-id w.now) w unique
          (λ j e. claims-refused w.now j (taken j e))

  -- The claim of a free job.
  claim_job-ok :
      (w : World) (row : InsightJob) (db : Database)
      → KeysUnique job_key w.db.insight_jobs
      → claim_job server m token seconds w ≡ (ok row, db)
      → (j : InsightJob) × (job_at i w.db.insight_jobs ≡ some j)
        × (claims w.now j ≡ true)
        × (row ≡ claimed w.now token seconds j)
        × (db ≡ record w.db {
          insight_jobs =
              update_where (claims w.now) (claimed w.now token seconds) w.db.insight_jobs;
        })
        × (job_at i db.insight_jobs ≡ some (claimed w.now token seconds j))
  claim_job-ok w row db unique h =
      update_jobs-ok (claims w.now) (claimed w.now token seconds) i (claims-id w.now) w row db
        (λ j. refl) unique (sym (claim_job-update w) ∙ h)

not_acquired-acquired :
    (server : Server) (m : Message) (v w : World) (lease : ProcessingLease)
    → not_acquired server m v ≡ (ok (acquired lease), w)
    → ⊥
unfolding not_acquired
not_acquired-acquired server m v w lease h = ground arith

-- Only the claim itself makes a lease.
after_claim-acquired :
    (server : Server) (m : Message) (token : ℕ) (r : Result InsightJob) (v w : World)
    (lease : ProcessingLease)
    → after_claim server m token r v ≡ (ok (acquired lease), w)
    → (j : InsightJob) × (r ≡ ok j) × (lease ≡ lease_of m token j) × (v ≡ w)
unfolding after_claim
after_claim-acquired server m token (ok j) v w lease h = (j, refl, ground arith, ap (λ p. p.1) h)
after_claim-acquired server m token (err e) v w lease h = absurd (refused (errors_is no_rows e) h)
  where
    refused :
        (b : Bool)
        → (if b then not_acquired server m else throw (wrap "falha ao adquirir job de insight: " e))
            v
          ≡ (ok (acquired lease), w)
        → ⊥
    refused true q = not_acquired-acquired server m v w lease q
    refused false q = cc

has_ids-ids : (i a : ℕ) (j : InsightJob) → has_ids i a j ≡ true → (j.id ≡ i) × (j.aluno_id ≡ a)
has_ids-ids i a j h = ground arith

-- What a lease is worth: the job of the message, which is of its student, was free, and now it
-- carries the fresh token of the lease, one more attempt, and a deadline.
pub record Leases (r : Repository) (m : Message) (i a : ℕ) (w w' : World) (lease : ProcessingLease)
    : Type 0 where
  pub before : InsightJob
  pub found : job_at i w.db.insight_jobs ≡ some before
  pub id : before.id ≡ i
  pub owner : before.aluno_id ≡ a
  pub free : is_free w.now before ≡ true
  pub fresh : lease.token ≡ r.server.new_uuid w.drawn
  pub after :
      job_at i w'.db.insight_jobs
      ≡ some (claimed w.now lease.token (whole_seconds r.lease_duration) before)
  pub counted : lease.attempts ≡ suc before.tentativas
  pub named : lease.message ≡ m

pub begin_processing-claim_with :
    (r : Repository) (m : Message) (w w' : World) (lease : ProcessingLease)
    → begin_processing r m w ≡ (ok (acquired lease), w')
    → claim_with r m (r.server.new_uuid w.drawn) (record w { drawn = suc w.drawn })
      ≡ (ok (acquired lease), w')
unfolding begin_processing
begin_processing-claim_with r m w w' lease h = ground arith

-- BeginProcessing returns a lease only for a free job with the two identifiers of the message, its
-- student's among them, and has then marked it with a fresh token, one more attempt and a deadline,
-- whatever calls of the database failed on the way.
pub begin_processing-acquired :
    (r : Repository) (m : Message) (w w' : World) (lease : ProcessingLease) (i a : ℕ)
    → Names r.server m i a
    → KeysUnique job_key w.db.insight_jobs
    → begin_processing r m w ≡ (ok (acquired lease), w')
    → Leases r m i a w w' lease
begin_processing-acquired r m w w' lease i a names unique h =
    let v = record w { drawn = suc w.drawn } in
    let token = r.server.new_uuid w.drawn in
    let (row, e, q, u) = claimed_by v token (begin_processing-claim_with r m w w' lease h) in
    let s = claim_job r.server m token (whole_seconds r.lease_duration) in
    let (t, _) = statement-ok s v w' row (λ k. (e k, u k)) in
    let (j, found, test, updated, _, after) =
      claim_job-ok r.server m i a token _ names v row w'.db unique t in
    record {
      before = j;
      found = found;
      id = (has_ids-ids i a j (&&-true (has_ids i a j) (is_free w.now j) test).0).0;
      owner = (has_ids-ids i a j (&&-true (has_ids i a j) (is_free w.now j) test).0).1;
      free = (&&-true (has_ids i a j) (is_free w.now j) test).1;
      fresh = ap (λ l. l.token) q;
      after =
          after ∙ ap (λ l. some (claimed w.now l.token (whole_seconds r.lease_duration) j)) (sym q);
      counted = ap (λ l. l.attempts) q ∙ ap (λ j. j.tentativas) updated;
      named = ap (λ l. l.message) q;
    }
  where
    claimed_by :
        (v : World) (token : ℕ)
        → claim_with r m token v ≡ (ok (acquired lease), w')
        → (row : InsightJob) × ((statement
              (claim_job r.server m token (whole_seconds r.lease_duration))
              v).0
            ≡ ok row)
          × (lease ≡ lease_of m token row)
          × ((statement (claim_job r.server m token (whole_seconds r.lease_duration)) v).1 ≡ w')
    claimed_by v token q =
        after_claim-acquired r.server m token
          (statement (claim_job r.server m token (whole_seconds r.lease_duration)) v).0
          (statement (claim_job r.server m token (whole_seconds r.lease_duration)) v).1 w' lease
          (unfold claim_with in q)
