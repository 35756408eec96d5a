-- ===== src/Postgres/Steps/Lifecycle/Runs.antt =====
-- What becomes of one job over any run.
use mentor_ia_worker.Prelude.{
  ℕ, ◌≡◌, ◌≢◌, ◌⊎◌, refl, sym, subst, ap, ◌∙◌, inl, inr, some, ◌∷◌, [], true, ltb, ◌&&◌, &&-true,
}
use mentor_ia_worker.Domain.{Message}
use mentor_ia_worker.Postgres.Tables.{
  Server, Status, pendente, processando, aguardando_retentativa, falhou, concluido, InsightJob,
  job_at,
}
use mentor_ia_worker.Postgres.Rows.{Repository, has_ids, whole_seconds, update_jobs}
use mentor_ia_worker.Postgres.Rows.Laws.{
  job_key, KeysUnique, KeysUnique-update_where, KeysUnique-append,
}
use mentor_ia_worker.Postgres.Rows.Lookup.{row_at-append_kept}
use mentor_ia_worker.Postgres.Session.{World}
use mentor_ia_worker.Postgres.Session.Keeps.{StatementKeeps}
use mentor_ia_worker.Postgres.Begin.{is_free, claim_job, job_exists, begin_processing}
use mentor_ia_worker.Postgres.Begin.Exclusive.{begin_processing-kept, job_exists-db}
use mentor_ia_worker.Postgres.Save.{save_insight_result}
use mentor_ia_worker.Postgres.Failure.{register_failure}
use mentor_ia_worker.Postgres.Schedule.{schedule_due_retry_jobs}
use mentor_ia_worker.Postgres.Schedule.Effect.{IsSkipped, schedule_due_retry_jobs_keeps}
use mentor_ia_worker.Postgres.Schedule.Keeps.{schedule_due_retry_jobs-Keeps}
use mentor_ia_worker.Postgres.Events.Keeps.{
  claim_pending_outbox_events-Keeps, mark_outbox_event_published-Keeps,
  mark_outbox_event_failed-Keeps,
}
use mentor_ia_worker.Postgres.JobLaw.{quiet_law, IsJobLaw, IsTableLaw, with_param-keeps}
use mentor_ia_worker.Postgres.Steps.{
  Step, begins, saves, fails, schedules, claims, publishes, refuses, passes, creates, saves_by,
  fails_by, Reach, Reach-keeps,
}
use mentor_ia_worker.Postgres.Steps.Lifecycle.{
  Transition, requeues, Moves, TakenOnce, TakenOnce-framed, TakenOnce-claim, SettledOnce,
  SettledOnce-law, RequeuedOnce-law,
}

abbrev pub JobsAreUnique : World → Type 0
JobsAreUnique w = KeysUnique job_key w.db.insight_jobs

pub JobsAreUnique-law : (server : Server) → IsJobLaw server JobsAreUnique
JobsAreUnique-law server = record {
  framed = record { calls = λ w os h. h; draws = λ w h. h; rollback = λ v w hv hw. hv };
  other_tables = λ w db same h. subst (KeysUnique job_key) (sym same.jobs) h;
  claims = λ v w p seconds hv h lt _.
      KeysUnique-update_where job_key p _ w.db.insight_jobs (λ j. refl) h;
  completes = λ w p h _. KeysUnique-update_where job_key p _ w.db.insight_jobs (λ j. refl) h;
  fails = λ w p n c s h _. KeysUnique-update_where job_key p _ w.db.insight_jobs (λ j. refl) h;
  requeues = λ w p h. KeysUnique-update_where job_key p _ w.db.insight_jobs (λ j. refl) h;
  passes = λ w now drawn locked calls a b h. h;
  creates = λ w j missing new h. KeysUnique-append job_key j w.db.insight_jobs missing h;
}

is_or_not_waiting : (s : Status) → (s ≡ aguardando_retentativa) ⊎ (s ≢ aguardando_retentativa)
is_or_not_waiting aguardando_retentativa = inl refl
is_or_not_waiting pendente = inr (λ e. cc)
is_or_not_waiting processando = inr (λ e. cc)
is_or_not_waiting falhou = inr (λ e. cc)
is_or_not_waiting concluido = inr (λ e. cc)

module _ (r : Repository) (i : ℕ) (w : World) (j : InsightJob) (unique : JobsAreUnique w)
    (found : job_at i w.db.insight_jobs ≡ some j) where
  -- What became of the job.
  abbrev Moved : World → Type 0
  Moved v = (k : InsightJob) × (job_at i v.db.insight_jobs ≡ some k) × Moves j k

  begin-Moved : (m : Message) → Moved (begin_processing r m w).1
  unfolding claim_job update_jobs
  begin-Moved m =
      let (_, (k, after, change)) =
        begin_processing-kept r m (TakenOnce-framed r.server i w j) exists_kept w
          (refl, (j, found, inl refl)) claim_kept in
      (k, after, elim change [ inl e ↦ inl e | inr (t, _) ↦ inr t ])
    where
      exists_kept : StatementKeeps (TakenOnce r.server i w j) (job_exists r.server m)
      exists_kept = record {
        at = λ v h.
            subst (λ db. TakenOnce r.server i w j (record v { db = db }))
              (sym (job_exists-db r.server m v)) h;
      }

      claim_kept :
          ltb 0 (whole_seconds r.lease_duration) ≡ true
          → StatementKeeps
              (TakenOnce r.server i w j)
              (claim_job r.server m (r.server.new_uuid w.drawn) (whole_seconds r.lease_duration))
      claim_kept long = with_param-keeps (r.server.uuid_param m.job_id) _ λ n.
          with_param-keeps (r.server.uuid_param m.aluno_id) _ λ a. record {
            at = λ v h.
                TakenOnce-claim r.server i w j (λ k. has_ids n a k && is_free v.now k) _ _ v long
                  (λ k t. (&&-true (has_ids n a k) (is_free v.now k) t).1) h;
          }

  settled-Moved : (v : World) → SettledOnce r.server i j v → Moved v
  settled-Moved v (k, after, change) =
      (k, after, elim change [ inl e ↦ inl e | inr (t, _) ↦ inr t ])

  schedule-Moved : (limit : ℕ) → Moved (schedule_due_retry_jobs r limit w).1
  schedule-Moved limit = elim (is_or_not_waiting j.status) [
    | inl waits ↦
        let (k, after, change) =
          (schedule_due_retry_jobs-Keeps r (RequeuedOnce-law r.server i j) limit).at w
            (j, found, inl refl) in
        (
          k,
          after,
          elim change [
            | inl e ↦ inl e
            | inr (status, count) ↦ inr (put_back j.tentativas waits status count)
          ],
        )
    | inr other ↦ (
      j,
      schedule_due_retry_jobs_keeps r limit w i j unique found (IsSkipped.not_waiting_job other),
      inl refl,
    )
  ]
    where
      put_back :
          {s t : Status} {m : ℕ} (n : ℕ)
          → s ≡ aguardando_retentativa
          → t ≡ pendente
          → m ≡ n
          → Transition s n t m
      put_back {s} {t} {m} n p q e =
          subst (λ s. Transition s n t m) (sym p)
            (subst (λ t. Transition aguardando_retentativa n t m) (sym q)
              (subst (λ m. Transition aguardando_retentativa n pendente m) (sym e) requeues))

  -- The other operations leave the table of the jobs.
  same_law : IsTableLaw r.server (λ v. job_at i v.db.insight_jobs ≡ some j)
  same_law = record {
    framed = record { calls = λ w os h. h; draws = λ w h. h; rollback = λ v w hv hw. hv };
    other_tables = λ w db same h. ap (job_at i) same.jobs ∙ h;
  }

  Step-Moved : {w' : World} → Step r w w' → Moved w'
  Step-Moved (begins m e) = subst Moved (sym e) (begin-Moved m)
  Step-Moved (saves l c ds e) = subst Moved (sym e) (
      settled-Moved (save_insight_result r l c ds w).1
        (saves_by r (SettledOnce-law r.server i j) w l c ds (j, found, inl refl)))
  Step-Moved (fails l n c f e) = subst Moved (sym e) (
      settled-Moved (register_failure r l n c f w).1
        (fails_by r (SettledOnce-law r.server i j) w l n c f (j, found, inl refl)))
  Step-Moved (schedules n e) = subst Moved (sym e) (schedule-Moved n)
  Step-Moved (claims n l e) =
      subst Moved (sym e)
        (j, (claim_pending_outbox_events-Keeps r (quiet_law same_law) n l).at w found, inl refl)
  Step-Moved (publishes v e) =
      subst Moved (sym e)
        (j, (mark_outbox_event_published-Keeps r (quiet_law same_law) v).at w found, inl refl)
  Step-Moved (refuses v n f e) =
      subst Moved (sym e)
        (j, (mark_outbox_event_failed-Keeps r (quiet_law same_law) v n f).at w found, inl refl)
  Step-Moved (passes now drawn locked calls a b e) = subst Moved (sym e) (j, found, inl refl)
  Step-Moved (creates x a b e) =
      subst Moved (sym e)
        (j, row_at-append_kept job_key i j w.db.insight_jobs (x ∷ []) found, inl refl)

-- After any run, one more operation leaves the row of a job exactly as it is, or does one transition
-- of the machine to it: an attempt is counted exactly when a worker takes the job, which pends,
-- waits for a retry or is taken over, only a running job is settled, with the count as it is, and
-- only a job that waits is put back; no job disappears, whatever calls of the database fail.
pub Reach-Moves :
    (r : Repository) {w u v : World} (i : ℕ) (j : InsightJob)
    → Reach r w u
    → JobsAreUnique w
    → Step r u v
    → job_at i u.db.insight_jobs ≡ some j
    → (k : InsightJob) × (job_at i v.db.insight_jobs ≡ some k) × Moves j k
Reach-Moves r {u} i j s unique t found =
    Step-Moved r i u j (Reach-keeps r (JobsAreUnique-law r.server) s unique) found t
