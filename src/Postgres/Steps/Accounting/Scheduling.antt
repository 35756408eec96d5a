-- ===== src/Postgres/Steps/Accounting/Scheduling.antt =====
-- ScheduleDueRetryJobs changes nothing in what is due of a job.
use mentor_ia_worker.Prelude.{
  ℕ, ◌≡◌, ◌⊎◌, refl, sym, ap, subst, ◌∙◌, inl, inr, none, some, Option, ◌==◌,
}
use mentor_ia_worker.Postgres.Tables.{
  Server, Status, pendente, processando, aguardando_retentativa, falhou, concluido, InsightJob,
  job_at,
}
use mentor_ia_worker.Postgres.Counting.{count, failures_of}
use mentor_ia_worker.Postgres.Rows.{Repository}
use mentor_ia_worker.Postgres.Rows.Laws.{job_key, row_at-update_where}
use mentor_ia_worker.Postgres.Rows.Lookup.{row_at-updating}
use mentor_ia_worker.Postgres.Session.{World}
use mentor_ia_worker.Postgres.Schedule.{requeued, schedule_due_retry_jobs}
use mentor_ia_worker.Postgres.Schedule.Effect.{IsSkipped, schedule_due_retry_jobs_keeps}
use mentor_ia_worker.Postgres.Schedule.Keeps.{schedule_due_retry_jobs-Keeps}
use mentor_ia_worker.Postgres.JobLaw.{IsRequeueLaw}
use mentor_ia_worker.Postgres.Steps.Lifecycle.Runs.{JobsAreUnique}
use mentor_ia_worker.Postgres.Steps.Lifecycle.Endings.{
  HasEnded, completed_job, failed_job, ended_not_waiting,
}
use mentor_ia_worker.Postgres.Steps.Accounting.{AllAccounted, due, failures_due, insights_due}

-- A status of which nothing is due.
abbrev pub IsOpen : Status → Type 0
IsOpen s = (failures_due s ≡ 0) × (insights_due s ≡ 0)

ended_or_IsOpen : (s : Status) → HasEnded s ⊎ IsOpen s
ended_or_IsOpen pendente = inr (refl, refl)
ended_or_IsOpen processando = inr (refl, refl)
ended_or_IsOpen aguardando_retentativa = inr (refl, refl)
ended_or_IsOpen falhou = inl failed_job
ended_or_IsOpen concluido = inl completed_job

module _ (server : Server) (i : ℕ) where
  abbrev IsMissing : World → Type 0
  IsMissing w = job_at i w.db.insight_jobs ≡ none

  IsMissing-law : IsRequeueLaw server IsMissing
  IsMissing-law = record {
    tables = record {
      framed = record { calls = λ w os h. h; draws = λ w h. h; rollback = λ v w hv hw. hv };
      other_tables = λ w db q h. ap (job_at i) q.extension.jobs ∙ h;
    };
    requeues = λ w p h.
        row_at-update_where job_key p (requeued w.now) i w.db.insight_jobs (λ j. refl) ∙ rw h refl;
  }

  abbrev StaysOpen : World → Type 0
  StaysOpen w = (j : InsightJob) × (job_at i w.db.insight_jobs ≡ some j) × IsOpen j.status

  StaysOpen-law : IsRequeueLaw server StaysOpen
  StaysOpen-law = record {
    tables = record {
      framed = record { calls = λ w os h. h; draws = λ w h. h; rollback = λ v w hv hw. hv };
      other_tables = λ w db q h. (h.0, ap (job_at i) q.extension.jobs ∙ h.1, h.2);
    };
    requeues = λ w p (j, found, idle).
        let (k, after, change) =
          row_at-updating job_key p (requeued w.now) i j w.db.insight_jobs (λ x. refl) found in
        (
          k,
          after,
          elim change [
            | inl (t, e) ↦ subst (λ x. IsOpen x.status) (sym e) (refl, refl)
            | inr e ↦ subst (λ x. IsOpen x.status) (sym e) idle
          ],
        );
  }

-- The failures that are announced, and the insights, stay as many.
abbrev AsMany : World → World → Type 0
AsMany v w = ((i : ℕ) → failures_of i w.db ≡ failures_of i v.db) × (w.db.insights ≡ v.db.insights)

AsMany-law : (server : Server) (v : World) → IsRequeueLaw server (AsMany v)
AsMany-law server v = record {
  tables = record {
    framed = record { calls = λ w os h. h; draws = λ w h. h; rollback = λ u w hu hw. hu };
    other_tables = λ w db q h. (λ i. q.failures i ∙ h.0 i, q.insights ∙ h.1);
  };
  requeues = λ w p h. h;
}

module _ (r : Repository) (limit : ℕ) (w : World) (unique : JobsAreUnique w) (i : ℕ) where
  -- As much is due of a job afterwards.
  abbrev DueStays : Option InsightJob → Option InsightJob → Type 0
  DueStays before after =
      (due failures_due after ≡ due failures_due before)
      × (due insights_due after ≡ due insights_due before)

  schedule-DueStays :
      (o : Option InsightJob)
      → job_at i w.db.insight_jobs ≡ o
      → DueStays o (job_at i (schedule_due_retry_jobs r limit w).1.db.insight_jobs)
  schedule-DueStays none e =
      let missing = (schedule_due_retry_jobs-Keeps r (IsMissing-law r.server i) limit).at w e in
      (ap (due failures_due) missing, ap (due insights_due) missing)
  schedule-DueStays (some j) e = elim (ended_or_IsOpen j.status) [
    | inl ended ↦
        let same =
          schedule_due_retry_jobs_keeps r limit w i j unique e
            (IsSkipped.not_waiting_job (ended_not_waiting ended)) in
        (ap (due failures_due) same, ap (due insights_due) same)
    | inr idle ↦
        let (k, found, still) =
          (schedule_due_retry_jobs-Keeps r (StaysOpen-law r.server i) limit).at w (j, e, idle) in
        (
          ap (due failures_due) found ∙ still.0 ∙ sym idle.0,
          ap (due insights_due) found ∙ still.1 ∙ sym idle.1,
        )
  ]

pub schedule_due_retry_jobs-AllAccounted :
    (r : Repository) (limit : ℕ) (w : World)
    → JobsAreUnique w
    → AllAccounted w
    → AllAccounted (schedule_due_retry_jobs r limit w).1
schedule_due_retry_jobs-AllAccounted r limit w unique h i =
    let counts =
      (schedule_due_retry_jobs-Keeps r (AsMany-law r.server w) limit).at w (λ k. refl, refl) in
    let stays = schedule-DueStays r limit w unique i (job_at i w.db.insight_jobs) refl in
    record {
      failures = counts.0 i ∙ (h i).failures ∙ sym stays.0;
      insights = ap (count (λ x. x.job_id == i)) counts.1 ∙ (h i).insights ∙ sym stays.1;
    }
