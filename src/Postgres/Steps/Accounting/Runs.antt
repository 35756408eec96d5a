-- ===== src/Postgres/Steps/Accounting/Runs.antt =====
-- The accounts of the jobs over any run.
use mentor_ia_worker.Prelude.{ℕ, ◌≡◌, refl, sym, ap, ◌∙◌, true, Option, ◌==◌}
use mentor_ia_worker.Postgres.Tables.{
  Server, Status, pendente, processando, aguardando_retentativa, falhou, concluido, InsightJob,
  job_at,
}
use mentor_ia_worker.Postgres.Counting.{count}
use mentor_ia_worker.Postgres.Rows.{Repository}
use mentor_ia_worker.Postgres.Session.{World}
use mentor_ia_worker.Postgres.Begin.{claimed, is_free, is_free_in}
use mentor_ia_worker.Postgres.JobLaw.{IsQuietLaw, IsClaimLaw}
use mentor_ia_worker.Postgres.Steps.{Step-keeps, IsStepLaw, Reach, here, next, Reach-keeps}
use mentor_ia_worker.Postgres.Steps.Lifecycle.Runs.{JobsAreUnique, JobsAreUnique-law}
use mentor_ia_worker.Postgres.Steps.Accounting.{
  IsAccounted, AllAccounted, due, failures_due, insights_due, due-changed, due-appended,
}
use mentor_ia_worker.Postgres.Steps.Accounting.Saving.{save_insight_result-AllAccounted}
use mentor_ia_worker.Postgres.Steps.Accounting.Failing.{register_failure-AllAccounted}
use mentor_ia_worker.Postgres.Steps.Accounting.Scheduling.{
  IsOpen, schedule_due_retry_jobs-AllAccounted,
}

AllAccounted-quiet_law : (server : Server) → IsQuietLaw server AllAccounted
AllAccounted-quiet_law server = record {
  framed = record { calls = λ w os h. h; draws = λ w h. h; rollback = λ v w hv hw. hv };
  other_tables = λ w db q h i. record {
    failures =
        q.failures i
        ∙ (h i).failures
        ∙ ap (λ rows. due failures_due (job_at i rows)) (sym q.extension.jobs);
    insights =
        ap (count (λ r. r.job_id == i)) q.insights
        ∙ (h i).insights
        ∙ ap (λ rows. due insights_due (job_at i rows)) (sym q.extension.jobs);
  };
}

-- Nothing is due of a job that may be claimed.
free-IsOpen :
    (now : ℕ) (s : Status) (retry_at lease_end : Option ℕ)
    → is_free_in now s retry_at lease_end ≡ true
    → IsOpen s
free-IsOpen now pendente retry_at lease_end h = (refl, refl)
free-IsOpen now processando retry_at lease_end h = (refl, refl)
free-IsOpen now aguardando_retentativa retry_at lease_end h = (refl, refl)
free-IsOpen now falhou retry_at lease_end h = cc
free-IsOpen now concluido retry_at lease_end h = cc

free_job-IsOpen : (now : ℕ) (j : InsightJob) → is_free now j ≡ true → IsOpen j.status
free_job-IsOpen now j = free-IsOpen now j.status j.proxima_tentativa_em j.lease_expira_em

AllAccounted-claim_law : (server : Server) → IsClaimLaw server AllAccounted
AllAccounted-claim_law server = record {
  framed = (AllAccounted-quiet_law server).framed;
  claims = λ v w p seconds hv h lt free i.
      let change = claimed w.now (server.new_uuid v.drawn) seconds in
      record {
        failures =
            (h i).failures
            ∙ sym (
                due-changed failures_due p change i w.db.insight_jobs (λ j. refl)
                  (λ j own t. sym (free_job-IsOpen w.now j (free j t)).0));
        insights =
            (h i).insights
            ∙ sym (
                due-changed insights_due p change i w.db.insight_jobs (λ j. refl)
                  (λ j own t. sym (free_job-IsOpen w.now j (free j t)).1));
      };
}

step_law : (r : Repository) (w : World) → JobsAreUnique w → IsStepLaw r AllAccounted w
step_law r w unique = record {
  claim = AllAccounted-claim_law r.server;
  tables = AllAccounted-quiet_law r.server;
  saves = λ lease content ds. save_insight_result-AllAccounted r lease content ds w unique;
  fails = λ lease n code failure. register_failure-AllAccounted r lease n code failure w unique;
  schedules = λ n. schedule_due_retry_jobs-AllAccounted r n w unique;
  passes = λ now drawn locked calls a b h. h;
  creates = λ j missing new h i. record {
    failures =
        (h i).failures
        ∙ sym (due-appended failures_due i j w.db.insight_jobs (ap failures_due new.status));
    insights =
        (h i).insights
        ∙ sym (due-appended insights_due i j w.db.insight_jobs (ap insights_due new.status));
  };
}

Reach-AllAccounted :
    (r : Repository) {w w' : World}
    → Reach r w w'
    → JobsAreUnique w
    → AllAccounted w
    → AllAccounted w'
Reach-AllAccounted r here unique h = h
Reach-AllAccounted r (next {u} s t) unique h =
    Step-keeps r (step_law r u (Reach-keeps r (JobsAreUnique-law r.server) s unique)) t
      (Reach-AllAccounted r s unique h)

pub record JobsAreAccounted (w : World) : Type 0 where
  pub job : (i : ℕ) → IsAccounted w.db i

-- Each job is settled exactly once: whatever the workers do and in whatever order, with whatever
-- calls of the database failing, or losing their reply after they have done their work, a job has
-- one event insight_failed in the outbox if it is in 'falhou' and none otherwise, and one insight
-- if it is in 'concluido' and none otherwise, if that was so at the start, with unique jobs.
pub Reach-JobsAreAccounted :
    (r : Repository) {w w' : World}
    → Reach r w w'
    → JobsAreUnique w
    → JobsAreAccounted w
    → JobsAreAccounted w'
Reach-JobsAreAccounted r s unique h = record { job = Reach-AllAccounted r s unique h.job }
