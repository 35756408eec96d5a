-- ===== src/Postgres/Steps/Accounting/Settling.antt =====
-- How the count of what is due changes when a leased job does.
use mentor_ia_worker.Prelude.{ℕ, ◌≡◌, ◌≢◌, sym, ap, ◌∙◌, true, List, update_where}
use mentor_ia_worker.Postgres.Tables.{Server, Status, processando, InsightJob, job_at}
use mentor_ia_worker.Postgres.Save.{is_leased}
use mentor_ia_worker.Postgres.Save.Effect.{is_leased-id}
use mentor_ia_worker.Postgres.JobLaw.{IsTableLaw, is_leased-status}
use mentor_ia_worker.Postgres.Steps.Accounting.{due, due-changed}

-- The statements on other tables leave the jobs.
pub jobs_law :
    (server : Server) (rows : List InsightJob) → IsTableLaw server (λ w. w.db.insight_jobs ≡ rows)
jobs_law server rows = record {
  framed = record { calls = λ w os h. h; draws = λ w h. h; rollback = λ v w hv hw. hv };
  other_tables = λ w later e h. e.jobs ∙ h;
}

-- Nothing is due of a job that runs.
pub due_running :
    (d : Status → ℕ) (i a token : ℕ) (j : InsightJob)
    → d processando ≡ 0
    → is_leased i a token j ≡ true
    → d j.status ≡ 0
due_running d i a token j nothing leased = ap d (is_leased-status i a token j leased) ∙ nothing

-- How the jobs of other identifiers stay when the leased ones change.
pub due-elsewhere :
    (d : Status → ℕ) (i a token : ℕ) (f : InsightJob → InsightJob) (rows : List InsightJob)
    → ((j : InsightJob) → (f j).id ≡ j.id)
    → (k : ℕ) → k ≢ i
    → due d (job_at k (update_where (is_leased i a token) f rows)) ≡ due d (job_at k rows)
due-elsewhere d i a token f rows keeps k other =
    due-changed d (is_leased i a token) f k rows keeps
      (λ j own t. absurd (other (sym own ∙ is_leased-id i a token j t)))
