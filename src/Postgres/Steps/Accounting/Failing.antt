-- ===== src/Postgres/Steps/Accounting/Failing.antt =====
-- RegisterFailure accounts for the job that it gives up.
use mentor_ia_worker.Prelude.{
  ℕ, ◌+◌, ◌≡◌, ◌≢◌, refl, sym, ap, subst, ◌∙◌, inl, inr, Bool, true, false, List, ℤ, arith, ◌==◌,
  update_where, if◌then◌else◌,
}
use mentor_ia_worker.Text.{Bytes}
use mentor_ia_worker.Domain.{ProcessingLease, FailureAction, insight_failed}
use mentor_ia_worker.Domain.Errors.{Error, ok}
use mentor_ia_worker.Postgres.Tables.{
  Status, falhou, aguardando_retentativa, InsightJob, OutboxRow, Database, job_at,
}
use mentor_ia_worker.Postgres.Counting.{count, failures_of, is_failure_of, count-appended}
use mentor_ia_worker.Postgres.Rows.{Repository}
use mentor_ia_worker.Postgres.Rows.Laws.{with_param-ok}
use mentor_ia_worker.Postgres.Session.{World, called, statement}
use mentor_ia_worker.Postgres.Session.Laws.{statement-ok, continue-ok, transaction_atomic}
use mentor_ia_worker.Postgres.Begin.Lease.{Names}
use mentor_ia_worker.Postgres.Save.{is_leased}
use mentor_ia_worker.Postgres.Failure.{
  summary_of, is_exhausted, failed_attempt, register_attempt, announce, register, failure_body,
  register_failure, new_event,
}
use mentor_ia_worker.Postgres.Failure.Effect.{registered-ok, register_attempt-ok, Announced}
use mentor_ia_worker.Postgres.Failure.Atomic.{Registered, failure_body-Registered}
use mentor_ia_worker.Postgres.Failure.Keeps.{announce-Keeps}
use mentor_ia_worker.Postgres.Steps.Lifecycle.Runs.{JobsAreUnique}
use mentor_ia_worker.Postgres.Steps.Accounting.{
  IsAccounted, AllAccounted, due, failures_due, insights_due, due-changed, counts_after,
}
use mentor_ia_worker.Postgres.Steps.Accounting.Settling.{jobs_law, due_running, due-elsewhere}

-- The status that a failure leaves.
abbrev outcome : ℤ → InsightJob → Status
outcome max_attempts j =
    if is_exhausted max_attempts j.tentativas then falhou else aguardando_retentativa

-- What an exhausted job, or another one, announces.
Announced-count :
    (r : Repository) (lease : ProcessingLease) (code summary : Bytes) (i now : ℕ) (b : Bool)
    (before after : List OutboxRow)
    → Announced r lease code summary i now
        (if b then falhou else aguardando_retentativa)
        before
        after
    → (k : ℕ)
    → count (is_failure_of k) after ≡ (
        if i == k
        then failures_due (if b then falhou else aguardando_retentativa)
          + count (is_failure_of k) before
        else count (is_failure_of k) before)
Announced-count r lease code summary i now true before after (id, json, _, e) k =
    ap (count (is_failure_of k)) e
    ∙ count-appended (is_failure_of k) before (new_event now id i insight_failed json)
    ∙ (ground arith)
Announced-count r lease code summary i now false before after e k =
    ap (count (is_failure_of k)) e ∙ ground arith

module _ (r : Repository) (lease : ProcessingLease) (max_attempts : ℤ) (code summary : Bytes) where
  pub register_attempt-names :
      (w : World) (row : InsightJob) (db : Database)
      → register_attempt r.server lease max_attempts code summary w ≡ (ok row, db)
      → (i : ℕ) × (a : ℕ) × Names r.server lease.message i a
  unfolding register_attempt
  register_attempt-names w row db h =
      let (i, e, g) = with_param-ok (r.server.uuid_param lease.message.job_id) _ w row db h in
      let (a, q, _) = with_param-ok (r.server.uuid_param lease.message.aluno_id) _ w row db g in
      (i, a, record { job = e; aluno = q })

  no_insight_due : (b : Bool) → insights_due (if b then falhou else aguardando_retentativa) ≡ 0
  no_insight_due true = refl
  no_insight_due false = refl

  Registered-AllAccounted :
      (i a now : ℕ) (before after : Database)
      → Registered r lease max_attempts code summary i a now before after
      → after.insight_jobs
        ≡ update_where
            (is_leased i a lease.token)
            (failed_attempt now max_attempts code summary)
            before.insight_jobs
      → ((k : ℕ) → IsAccounted before k)
      → (k : ℕ) → IsAccounted after k
  Registered-AllAccounted i a now before after s jobs h k = record {
    failures =
        counts_after failures_due i (λ n. failures_of n before) (λ n. failures_of n after)
          before.insight_jobs after.insight_jobs
          (λ n other.
            ap (λ rows. due failures_due (job_at n rows)) jobs
            ∙ due-elsewhere failures_due i a lease.token
                (failed_attempt now max_attempts code summary) before.insight_jobs (λ j. refl) n
                other)
          (λ n other. counted n ∙ missed n other _)
          (counted i ∙ here ∙ sym (ap (due failures_due) s.settled)) (λ n. (h n).failures) k;
    insights =
        ap (count (λ x. x.job_id == k)) s.insights_kept
        ∙ (h k).insights
        ∙ sym (
            ap (λ rows. due insights_due (job_at k rows)) jobs
            ∙ due-changed insights_due (is_leased i a lease.token)
                (failed_attempt now max_attempts code summary) k before.insight_jobs (λ j. refl)
                (λ j own t.
                  no_insight_due (is_exhausted max_attempts j.tentativas)
                  ∙ sym (due_running insights_due i a lease.token j refl t)));
  }
    where
      none_yet : failures_of i before ≡ 0
      none_yet =
          (h i).failures
          ∙ ap (due failures_due) s.found
          ∙ due_running failures_due i a lease.token s.job refl s.leased

      counted :
          (n : ℕ)
          → failures_of n after ≡ (
              if i == n
              then failures_due (outcome max_attempts s.job) + failures_of n before
              else failures_of n before)
      counted n =
          Announced-count r lease code summary i now (is_exhausted max_attempts s.job.tentativas)
            before.outbox_eventos after.outbox_eventos s.announced n

      missed :
          (n : ℕ)
          → n ≢ i
          → (m : ℕ)
          → (if i == n then m + failures_of n before else failures_of n before)
            ≡ failures_of n before
      missed n other m = ground (arith, other)

      here :
          (if i == i
            then failures_due (outcome max_attempts s.job) + failures_of i before
            else failures_of i before)
          ≡ failures_due (outcome max_attempts s.job)
      here = at_count (failures_due (outcome max_attempts s.job)) none_yet
        where
          at_count :
              (m : ℕ)
              → failures_of i before ≡ 0
              → (if i == i then m + failures_of i before else failures_of i before) ≡ m
          at_count m e = ground (arith, e)

  failure_body-AllAccounted :
      (w w' : World) (action : FailureAction)
      → JobsAreUnique w
      → AllAccounted w
      → failure_body r lease max_attempts code summary w ≡ (ok action, w')
      → AllAccounted w'
  unfolding failure_body register
  failure_body-AllAccounted w w' action unique h x =
      let update = register_attempt r.server lease max_attempts code summary in
      let (row, v, e, rest) =
        continue-ok (register r lease max_attempts code summary w).0
          (register r lease max_attempts code summary w).1
          (λ j. announce r lease code summary j.status) w' action x in
      let (e', u) = registered-ok (statement update w).0 row (statement update w).1 v e in
      let (q, frame) = statement-ok update w v row (λ k. (e' k, u k)) in
      let (i, a, names) = register_attempt-names w row v.db q in
      let (_, _, _, _, written, _) =
        register_attempt-ok r lease max_attempts code summary i a names w row v.db unique q in
      let (s, _) =
        failure_body-Registered r lease max_attempts code summary i a names w w' action unique x in
      let jobs : w'.db.insight_jobs ≡ v.db.insight_jobs =
        subst (λ y. y.1.db.insight_jobs ≡ v.db.insight_jobs) rest
          ((announce-Keeps r (jobs_law r.server v.db.insight_jobs) lease code summary row.status).at
            v refl) in
      Registered-AllAccounted i a w.now w.db w'.db s (jobs ∙ ap (λ d. d.insight_jobs) written) h

pub register_failure-AllAccounted :
    (r : Repository) (lease : ProcessingLease) (max_attempts : ℤ) (code : Bytes) (failure : Error)
    (w : World)
    → JobsAreUnique w
    → AllAccounted w
    → AllAccounted (register_failure r lease max_attempts code failure w).1
unfolding register_failure
register_failure-AllAccounted r lease max_attempts code failure w unique h =
    elim (transaction_atomic "falha ao iniciar transacao para registrar erro do job de insight: "
      "falha ao confirmar erro do job de insight: "
      (failure_body r lease max_attempts code (summary_of failure)) w) [
        | inl e ↦ subst (λ d. (i : ℕ) → IsAccounted d i) (sym e) h
        | inr (t, v, e, q) ↦
            subst (λ d. (i : ℕ) → IsAccounted d i) (sym q)
              (failure_body-AllAccounted r lease max_attempts code (summary_of failure) (called w) v
                t unique h e)
      ]
