-- ===== src/Postgres/Begin/Exclusive.antt =====
-- BeginProcessing as a lock on a job: what is taken stays as it is.
use mentor_ia_worker.Prelude.{
  ℕ, suc, ◌<◌, ◌≡◌, ◌≢◌, refl, sym, subst, ap, ◌∙◌, Bool, true, false, some, arith, ltb, ltb_ℤ, pos,
}
use mentor_ia_worker.Domain.{Message, ProcessingLease}
use mentor_ia_worker.Domain.Errors.{Error, Result, ok, err, plain}
use mentor_ia_worker.Postgres.Tables.{
  Server, processando, aguardando_retentativa, falhou, concluido, InsightJob, job_at,
}
use mentor_ia_worker.Postgres.Rows.{Repository, whole_seconds}
use mentor_ia_worker.Postgres.Rows.Laws.{job_key, KeysUnique, some_injective}
use mentor_ia_worker.Postgres.Session.{World, require, draw, ◌>>=◌}
use mentor_ia_worker.Postgres.Session.Keeps.{IsFramed, Keeps, StatementKeeps, keeps_rules}
use mentor_ia_worker.Postgres.Begin.{
  is_free, claim_job, job_exists, acquired, not_acquired, after_claim, claim_with, begin_processing,
}
use mentor_ia_worker.Postgres.Begin.Lease.{Names, claim_job-missed, begin_processing-acquired}

-- The tables and the time of one world.
abbrev pub SameTables : World → World → Type 0
SameTables w v = (v.db ≡ w.db) × (v.now ≡ w.now)

pub SameTables-framed : (server : Server) (w : World) → IsFramed server (SameTables w)
SameTables-framed server w = record {
  calls = λ v os h. h;
  draws = λ v h. h;
  rollback = λ u v hu hv. (hu.0, hv.1);
}

pub job_exists-db : (server : Server) (m : Message) (w : World) → (job_exists server m w).1 ≡ w.db
unfolding job_exists
job_exists-db server m w = ground arith

-- What the two statements of BeginProcessing keep, BeginProcessing keeps.
module _ {P : World → Type 0} (r : Repository) (m : Message) (framed : IsFramed r.server P)
    (exists_keeps : StatementKeeps P (job_exists r.server m)) where
  not_acquired-Keeps : Keeps P (not_acquired r.server m)
  unfolding not_acquired
  not_acquired-Keeps = search (keeps_rules, framed, exists_keeps)

  after_claim-Keeps :
      (token : ℕ) (row : Result InsightJob) → Keeps P (after_claim r.server m token row)
  unfolding after_claim
  after_claim-Keeps token (ok j) = search keeps_rules
  after_claim-Keeps token (err e) = search (keeps_rules, not_acquired-Keeps)

  pub claim_with-Keeps :
      (token : ℕ)
      → StatementKeeps P (claim_job r.server m token (whole_seconds r.lease_duration))
      → Keeps P (claim_with r m token)
  unfolding claim_with
  claim_with-Keeps token claim_keeps = search (keeps_rules, framed, claim_keeps, after_claim-Keeps)

  guarded-keeps :
      (b c : Bool) (e e' : Error) (w : World)
      → P w
      → (c ≡ true → Keeps P (claim_with r m (r.server.new_uuid w.drawn)))
      → P
          ((require b e >>= λ _.
              draw r.server >>= λ token. require c e' >>= λ _. claim_with r m token)
            w).1
  guarded-keeps false c e e' w h k = h
  guarded-keeps true false e e' w h k = framed.draws w h
  guarded-keeps true true e e' w h k =
      (k refl).at (record w { drawn = suc w.drawn }) (framed.draws w h)

  -- The claim is made with the next token only, and for a second at least.
  pub begin_processing-kept :
      (w : World)
      → P w
      → (ltb 0 (whole_seconds r.lease_duration) ≡ true
          → StatementKeeps P
              (claim_job r.server m (r.server.new_uuid w.drawn) (whole_seconds r.lease_duration)))
      → P (begin_processing r m w).1
  unfolding begin_processing
  begin_processing-kept w h claim_keeps =
      guarded-keeps (ltb_ℤ (pos 0) r.lease_duration) (ltb 0 (whole_seconds r.lease_duration))
        (plain "leaseDuration deve ser maior que zero")
        (plain "leaseDuration deve ter pelo menos um segundo") w h
        (λ long. claim_with-Keeps (r.server.new_uuid w.drawn) (claim_keeps long))

-- A job that nobody may take at the given time.
pub data IsTaken (now : ℕ) (j : InsightJob) : Type 0 where
  -- its lease runs
  leased : (t : ℕ) → j.status ≡ processando → j.lease_expira_em ≡ some t → now < t → IsTaken now j
  -- its retry is not due
  waiting :
      (t : ℕ)
      → j.status ≡ aguardando_retentativa
      → j.proxima_tentativa_em ≡ some t
      → now < t
      → IsTaken now j
  -- it has ended
  failed : j.status ≡ falhou → IsTaken now j
  done : j.status ≡ concluido → IsTaken now j

IsTaken-is_free : (now : ℕ) (j : InsightJob) → IsTaken now j → is_free now j ≡ false
IsTaken-is_free now j (leased t s e h) = rw (s, e) (ground arith)
IsTaken-is_free now j (waiting t s e h) = rw (s, e) (ground arith)
IsTaken-is_free now j (failed s) = rw s refl
IsTaken-is_free now j (done s) = rw s refl

-- While a job is taken (its lease runs, its retry is not due, or it has ended), BeginProcessing
-- gives no lease to it and leaves every table as it is, whatever calls of the database fail.
pub begin_processing_exclusive :
    (r : Repository) (m : Message) (w : World) (i a : ℕ) (j : InsightJob)
    → Names r.server m i a
    → KeysUnique job_key w.db.insight_jobs
    → job_at i w.db.insight_jobs ≡ some j
    → IsTaken w.now j
    → ((begin_processing r m w).1.db ≡ w.db)
      × ((lease : ProcessingLease) → (begin_processing r m w).0 ≢ ok (acquired lease))
begin_processing_exclusive r m w i a j names unique found is_taken = (unchanged, refused)
  where
    taken : is_free w.now j ≡ false
    taken = IsTaken-is_free w.now j is_taken

    claim_kept :
        (token : ℕ)
        → StatementKeeps
            (SameTables w)
            (claim_job r.server m token (whole_seconds r.lease_duration))
    claim_kept token = record {
      at = λ v h. (
        ap (λ q. q.1)
              (claim_job-missed r.server m i a token _ names v
                (subst (λ d. KeysUnique job_key d.insight_jobs) (sym h.0) unique) (still v h))
            ∙ h.0,
        h.1,
      );
    }
      where
        still :
            (v : World)
            → SameTables w v
            → (k : InsightJob) → job_at i v.db.insight_jobs ≡ some k
            → is_free v.now k ≡ false
        still v h k e = rw h.1 (
            subst (λ x. is_free w.now x ≡ false)
              (some_injective (sym found ∙ ap (λ d. job_at i d.insight_jobs) (sym h.0) ∙ e)) taken)

    exists_kept : StatementKeeps (SameTables w) (job_exists r.server m)
    exists_kept = record { at = λ v h. (job_exists-db r.server m v ∙ h.0, h.1) }

    refused : (lease : ProcessingLease) → (begin_processing r m w).0 ≢ ok (acquired lease)
    refused lease e =
        let l =
          begin_processing-acquired r m w (begin_processing r m w).1 lease i a names unique
            (λ k. (e k, (begin_processing r m w).1)) in
        cc (l.free, taken, some_injective (sym found ∙ l.found))

    unchanged : (begin_processing r m w).1.db ≡ w.db
    unchanged =
        (begin_processing-kept r m (SameTables-framed r.server w) exists_kept w (refl, refl)
          (λ long. claim_kept (r.server.new_uuid w.drawn))).0
