-- ===== src/Postgres/Failure/Atomic.antt =====
-- RegisterFailure is one step on the tables.
use mentor_ia_worker.Prelude.{
  ℕ, ◌≡◌, ◌≢◌, sym, subst, ap, ◌∙◌, ◌⊎◌, inl, inr, true, some, ℤ, if◌then◌else◌,
}
use mentor_ia_worker.Text.{Bytes}
use mentor_ia_worker.Domain.{ProcessingLease, FailureAction, failed, retry}
use mentor_ia_worker.Domain.Errors.{Error, ok}
use mentor_ia_worker.Postgres.Tables.{falhou, aguardando_retentativa, InsightJob, Database, job_at}
use mentor_ia_worker.Postgres.Rows.{Repository}
use mentor_ia_worker.Postgres.Rows.Laws.{job_key, KeysUnique}
use mentor_ia_worker.Postgres.Session.{World, Action, called, statement}
use mentor_ia_worker.Postgres.Session.Laws.{
  statement-ok, transaction_atomic, transaction-ok, continue-ok,
}
use mentor_ia_worker.Postgres.Begin.Lease.{Names}
use mentor_ia_worker.Postgres.Save.{is_leased}
use mentor_ia_worker.Postgres.Save.Atomic.{is_leased-token}
use mentor_ia_worker.Postgres.Failure.{
  summary_of, is_exhausted, failed_attempt, register_attempt, announce, register, failure_body,
  register_failure,
}
use mentor_ia_worker.Postgres.Failure.Effect.{
  registered-ok, register_attempt-ok, Announced, announce-ok, action_of, moved, action_of_if,
}

-- The job and the events before and after a registered failure.
pub record Registered (r : Repository) (lease : ProcessingLease) (max_attempts : ℤ)
    (code summary : Bytes) (i a now : ℕ) (before after : Database) : Type 0 where
  pub job : InsightJob
  pub found : job_at i before.insight_jobs ≡ some job
  pub leased : is_leased i a lease.token job ≡ true
  pub settled :
      job_at i after.insight_jobs ≡ some (failed_attempt now max_attempts code summary job)
  pub insights_kept : after.insights ≡ before.insights
  pub announced :
      Announced r lease code summary i now
        (if is_exhausted max_attempts job.tentativas then falhou else aguardando_retentativa)
        before.outbox_eventos
        after.outbox_eventos

module _ (r : Repository) (lease : ProcessingLease) (max_attempts : ℤ) (code summary : Bytes)
    (i a : ℕ) (names : Names r.server lease.message i a) where
  pub failure_body-Registered :
      (w w' : World) (action : FailureAction)
      → KeysUnique job_key w.db.insight_jobs
      → failure_body r lease max_attempts code summary w ≡ (ok action, w')
      → (s : Registered r lease max_attempts code summary i a w.now w.db w'.db) × (action
          ≡ (if is_exhausted max_attempts s.job.tentativas then failed else retry))
  unfolding failure_body register
  failure_body-Registered w w' action unique h =
      let s = register_attempt r.server lease max_attempts code summary in
      let (row, v, e, rest) =
        continue-ok (register r lease max_attempts code summary w).0
          (register r lease max_attempts code summary w).1
          (λ j. announce r lease code summary j.status) w' action h in
      let (e', u) = registered-ok (statement s w).0 row (statement s w).1 v e in
      let (q, frame) = statement-ok s w v row (λ k. (e' k, u k)) in
      let (j, found, leased, changed, written, settled) =
        register_attempt-ok r lease max_attempts code summary i a names w row v.db unique q in
      let (acted, jobs, insights, announced) =
        announce-ok r lease code summary i a names row.status v w' action rest in
      let status : row.status
          ≡ (if is_exhausted max_attempts j.tentativas then falhou else aguardando_retentativa) =
        ap (λ k. k.status) changed in
      (
        record {
          job = j;
          found = found;
          leased = leased;
          settled = ap (job_at i) jobs ∙ settled;
          insights_kept = insights ∙ ap (λ d. d.insights) written;
          announced =
              moved r lease code summary i v.now w.now row.status _ v.db.outbox_eventos
                w.db.outbox_eventos w'.db.outbox_eventos (sym frame.now) status
                (ap (λ d. d.outbox_eventos) written) announced;
        },
        acted ∙ ap action_of status ∙ action_of_if (is_exhausted max_attempts j.tentativas),
      )

-- RegisterFailure is all or nothing, whatever calls of the database fail: the tables stay as they
-- were, or the job that carried the token of the lease is settled (failed for good with an event in
-- the outbox if its attempts are used up, and due again later with no event if they are not).
-- An action that is returned tells which of the two the transaction did.
pub register_failure_atomic :
    (r : Repository) (lease : ProcessingLease) (max_attempts : ℤ) (code : Bytes) (failure : Error)
    (w : World) (i a : ℕ)
    → Names r.server lease.message i a
    → KeysUnique job_key w.db.insight_jobs
    → let (result, w') = register_failure r lease max_attempts code failure w in
      ((w'.db ≡ w.db)
        ⊎ Registered r lease max_attempts code (summary_of failure) i a w.now w.db w'.db)
      × ((action : FailureAction)
          → result ≡ ok action
          → (s : Registered r lease max_attempts code (summary_of failure) i a w.now w.db w'.db)
            × (action ≡ (if is_exhausted max_attempts s.job.tentativas then failed else retry)))
unfolding register_failure
register_failure_atomic r lease max_attempts code failure w i a names unique = (either, on_success)
  where
    summary : Bytes
    summary = summary_of failure

    body : Action FailureAction
    body = failure_body r lease max_attempts code summary

    in_body :
        (v : World) (action : FailureAction)
        → body (called w) ≡ (ok action, v)
        → (s : Registered r lease max_attempts code summary i a w.now w.db v.db) × (action
            ≡ (if is_exhausted max_attempts s.job.tentativas then failed else retry))
    in_body v action e =
        failure_body-Registered r lease max_attempts code summary i a names (called w) v action
          unique e

    either :
        ((register_failure r lease max_attempts code failure w).1.db ≡ w.db)
        ⊎ Registered r lease max_attempts code summary i a w.now w.db
            (register_failure r lease max_attempts code failure w).1.db
    either =
        elim (transaction_atomic
          "falha ao iniciar transacao para registrar erro do job de insight: "
          "falha ao confirmar erro do job de insight: " body w) [
            | inl e ↦ inl e
            | inr (t, v, e, q) ↦ inr (
                subst (Registered r lease max_attempts code summary i a w.now w.db) (sym q)
                  (in_body v t e).0)
          ]

    on_success :
        (action : FailureAction)
        → (register_failure r lease max_attempts code failure w).0 ≡ ok action
        → (s : Registered r lease max_attempts code summary i a w.now w.db
            (register_failure r lease max_attempts code failure w).1.db)
          × (action ≡ (if is_exhausted max_attempts s.job.tentativas then failed else retry))
    on_success action h =
        let w' = (register_failure r lease max_attempts code failure w).1 in
        let (v, e, q, _) =
          transaction-ok "falha ao iniciar transacao para registrar erro do job de insight: "
            "falha ao confirmar erro do job de insight: " body w w' action (λ k. (h k, w')) in
        subst
          (λ d.
            (s : Registered r lease max_attempts code summary i a w.now w.db d) × (action
              ≡ (if is_exhausted max_attempts s.job.tentativas then failed else retry)))
          q (in_body v action e)

-- A lease that the job no longer carries registers nothing: no table changes, and no action is
-- returned.
pub register_failure_stale :
    (r : Repository) (lease : ProcessingLease) (max_attempts : ℤ) (code : Bytes) (failure : Error)
    (w : World) (i a : ℕ)
    → Names r.server lease.message i a
    → KeysUnique job_key w.db.insight_jobs
    → ((j : InsightJob)
        → job_at i w.db.insight_jobs ≡ some j
        → j.processing_token ≢ some lease.token)
    → let (result, w') = register_failure r lease max_attempts code failure w in
      (w'.db ≡ w.db) × ((action : FailureAction) → result ≢ ok action)
register_failure_stale r lease max_attempts code failure w i a names unique stale =
    let (either, on_success) =
      register_failure_atomic r lease max_attempts code failure w i a names unique in
    (
      elim either [ inl e ↦ e | inr s ↦ absurd (impossible _ s) ],
      λ action h. impossible _ (on_success action h).0,
    )
  where
    impossible :
        (db : Database)
        → Registered r lease max_attempts code (summary_of failure) i a w.now w.db db
        → ⊥
    impossible db s = stale s.job s.found (is_leased-token i a lease.token s.job s.leased)
