-- ===== src/Postgres/Failure/Effect.antt =====
-- The parts of RegisterFailure: the UPDATE of the job, and the event of a final failure.
use mentor_ia_worker.Prelude.{
  ℕ, suc, ◌≡◌, refl, sym, subst, ap, ◌∙◌, Bool, true, false, some, List, [], ◌∷◌, ◌++◌, ℤ, arith,
  if◌then◌else◌, update_where,
}
use mentor_ia_worker.Text.{Bytes}
use mentor_ia_worker.Domain.{
  ProcessingLease, FailureAction, failed, retry, OutboxType, insight_failed,
}
use mentor_ia_worker.Domain.Errors.{Result, ok, err, sentinel, wrap, lease_lost, no_rows, errors_is}
use mentor_ia_worker.Postgres.Tables.{
  Server, Status, falhou, aguardando_retentativa, InsightJob, Database, OutboxRow, job_at,
}
use mentor_ia_worker.Postgres.Rows.{Repository, update_jobs, with_param}
use mentor_ia_worker.Postgres.Rows.Laws.{job_key, KeysUnique, update_jobs-ok, with_param-ok}
use mentor_ia_worker.Postgres.Session.{World, pure, throw}
use mentor_ia_worker.Postgres.Session.Laws.{step-ok, pure-ok}
use mentor_ia_worker.Postgres.Begin.Lease.{Names}
use mentor_ia_worker.Postgres.Save.{is_leased}
use mentor_ia_worker.Postgres.Failure.{
  failed_attempt, register_attempt, new_event, insert_event, registered, announce,
}

-- An inserted event is the last row, with the defaults of a new one.
pub insert_event-ok :
    (server : Server) (id i : ℕ) (job_id : Bytes) (tipo : OutboxType) (payload : Bytes) (w : World)
    (t : Unit {0}) (db : Database)
    → server.uuid_param job_id ≡ ok i
    → insert_event server id job_id tipo payload w ≡ (ok t, db)
    → (json : Bytes) × (server.jsonb_param payload ≡ ok json)
      × (db ≡ record w.db {
        outbox_eventos = w.db.outbox_eventos ++ new_event w.now id i tipo json ∷ [];
      })
unfolding insert_event
insert_event-ok server id i job_id tipo payload w t db named h =
    let (json, e, q) =
      with_param-ok (server.jsonb_param payload)
        (λ json v. (
          ok tt,
          record v.db {
            outbox_eventos = v.db.outbox_eventos ++ new_event v.now id i tipo json ∷ [];
          },
        ))
        w t db (rw named at h) in
    (json, e, ap (λ x. x.1) (sym q))

module _ (r : Repository) (lease : ProcessingLease) (max_attempts : ℤ) (code summary : Bytes)
    (i a : ℕ) (names : Names r.server lease.message i a) where
  abbrev test : InsightJob → Bool
  test = is_leased i a lease.token

  abbrev change : ℕ → InsightJob → InsightJob
  change now = failed_attempt now max_attempts code summary

  test-id : (j : InsightJob) → test j ≡ true → j.id ≡ i
  test-id j h = ground arith

  pub register_attempt-ok :
      (w : World) (row : InsightJob) (db : Database)
      → KeysUnique job_key w.db.insight_jobs
      → register_attempt r.server lease max_attempts code summary w ≡ (ok row, db)
      → (j : InsightJob) × (job_at i w.db.insight_jobs ≡ some j)
        × (test j ≡ true)
        × (row ≡ change w.now j)
        × (db ≡ record w.db { insight_jobs = update_where test (change w.now) w.db.insight_jobs })
        × (job_at i db.insight_jobs ≡ some (change w.now j))
  register_attempt-ok w row db unique h =
      let update = λ (v : World). update_jobs test (change v.now) v in
      let (t, _, h₁) =
        with_param-ok (r.server.text_param code)
          (λ _. with_param (r.server.text_param summary) (λ _. update)) w row db
          (unfold register_attempt in rw (names.job, names.aluno) at h) in
      let (u, _, h₂) = with_param-ok (r.server.text_param summary) (λ _. update) w row db h₁ in
      update_jobs-ok test (change w.now) i test-id w row db (λ j. refl) unique h₂

pub registered-ok :
    (x : Result InsightJob) (j : InsightJob) (v w : World)
    → registered x v ≡ (ok j, w)
    → (x ≡ ok j) × (v ≡ w)
unfolding registered
registered-ok (ok k) j v w h = (ground arith, ap (λ q. q.1) h)
registered-ok (err e) j v w h = absurd (refused (errors_is no_rows e) h)
  where
    refused :
        (b : Bool)
        → (if b
              then throw (sentinel lease_lost)
              else throw (wrap "falha ao registrar erro do job de insight: " e))
            v
          ≡ (ok j, w)
        → ⊥
    refused true q = cc
    refused false q = cc

-- What is announced with a status: the event of the failure, for a job that has failed for good.
abbrev pub Announced :
    Repository
    → ProcessingLease
    → Bytes
    → Bytes
    → ℕ
    → ℕ
    → Status
    → List OutboxRow
    → List OutboxRow
    → Type 0
Announced r lease code summary i now falhou before after =
    (id : ℕ) × (json : Bytes) × (r.server.jsonb_param (
        r.codec.marshal_failure (record {
          job_id = lease.message.job_id;
          aluno_id = lease.message.aluno_id;
          error_code = code;
          error_summary = summary;
        }))
      ≡ ok json)
    × (after ≡ before ++ new_event now id i insight_failed json ∷ [])
Announced r lease code summary i now _ before after = after ≡ before

abbrev pub action_of : Status → FailureAction
action_of falhou = failed
action_of _ = retry

unchanged :
    (b action : FailureAction) (w w' : World)
    → pure b w ≡ (ok action, w')
    → (action ≡ b)
      × (w'.db.insight_jobs ≡ w.db.insight_jobs)
      × (w'.db.insights ≡ w.db.insights)
      × (w'.db.outbox_eventos ≡ w.db.outbox_eventos)
unchanged b action w w' h =
    let (same, last) = pure-ok b action w w' h in
    (
      sym same,
      ap (λ u. u.db.insight_jobs) (sym last),
      ap (λ u. u.db.insights) (sym last),
      ap (λ u. u.db.outbox_eventos) (sym last),
    )

pub announce-ok :
    (r : Repository) (lease : ProcessingLease) (code summary : Bytes) (i a : ℕ)
    (names : Names r.server lease.message i a) (status : Status) (w w' : World)
    (action : FailureAction)
    → announce r lease code summary status w ≡ (ok action, w')
    → (action ≡ action_of status)
      × (w'.db.insight_jobs ≡ w.db.insight_jobs)
      × (w'.db.insights ≡ w.db.insights)
      × Announced r lease code summary i w.now status w.db.outbox_eventos w'.db.outbox_eventos
unfolding announce
announce-ok r lease code summary i a names falhou w w' action h =
    let event = r.codec.marshal_failure (record {
      job_id = lease.message.job_id;
      aluno_id = lease.message.aluno_id;
      error_code = code;
      error_summary = summary;
    }) in
    let drew = record w { drawn = suc w.drawn } in
    let id = r.server.new_uuid w.drawn in
    let (t, v, e, _, rest) =
      step-ok "falha ao criar evento de outbox para falha definitiva: "
        (insert_event r.server id lease.message.job_id insight_failed event) (λ _. pure failed) drew
        w' action h in
    let (json, well_formed, q) =
      insert_event-ok r.server id i lease.message.job_id insight_failed event drew t v.db names.job
        e in
    let (same, last) = pure-ok failed action v w' rest in
    (
      sym same,
      ap (λ u. u.db.insight_jobs) (sym last) ∙ ap (λ d. d.insight_jobs) q,
      ap (λ u. u.db.insights) (sym last) ∙ ap (λ d. d.insights) q,
      (
        id,
        json,
        well_formed,
        ap (λ u. u.db.outbox_eventos) (sym last) ∙ ap (λ d. d.outbox_eventos) q,
      ),
    )
announce-ok r lease code summary i a names Status.pendente w w' action h =
    unchanged retry action w w' h
announce-ok r lease code summary i a names _ w w' action h = unchanged retry action w w' h

pub moved :
    (r : Repository) (lease : ProcessingLease) (code summary : Bytes) (i m n : ℕ) (s t : Status)
    (before before' after : List OutboxRow)
    → m ≡ n
    → s ≡ t
    → before ≡ before'
    → Announced r lease code summary i m s before after
    → Announced r lease code summary i n t before' after
moved r lease code summary i m n s t before before' after p q e h =
    subst (λ x. Announced r lease code summary i n t x after) e
      (subst (λ x. Announced r lease code summary i n x before after) q
        (subst (λ x. Announced r lease code summary i x s before after) p h))

pub action_of_if :
    (b : Bool)
    → action_of (if b then falhou else aguardando_retentativa) ≡ (if b then failed else retry)
action_of_if true = refl
action_of_if false = refl
