-- ===== src/Tests/Jobs.antt =====
-- A job that is taken, finished and failed.
use mentor_ia_worker.Prelude.{◌≡◌, ◌≢◌, refl, ◌⊎◌, some, pos, arith, if◌then◌else◌}
use mentor_ia_worker.Text.{bytes}
use mentor_ia_worker.Domain.{ProcessingLease, FailureAction, failed, retry}
use mentor_ia_worker.Domain.Errors.{ok, plain}
use mentor_ia_worker.Postgres.Tables.{InsightJob, job_at}
use mentor_ia_worker.Postgres.Rows.{update_jobs}
use mentor_ia_worker.Postgres.Rows.Laws.{some_injective}
use mentor_ia_worker.Postgres.Session.{World, statement}
use mentor_ia_worker.Postgres.Begin.{acquired, claim_job, after_claim, claim_with, begin_processing}
use mentor_ia_worker.Postgres.Begin.Lease.{Names, Leases, begin_processing-acquired}
use mentor_ia_worker.Postgres.Begin.Exclusive.{IsTaken, begin_processing_exclusive}
use mentor_ia_worker.Postgres.Save.{save_insight_result}
use mentor_ia_worker.Postgres.Save.Effect.{Saved}
use mentor_ia_worker.Postgres.Save.Atomic.{save_insight_result_atomic}
use mentor_ia_worker.Postgres.Failure.{summary_of, is_exhausted, register_failure}
use mentor_ia_worker.Postgres.Failure.Atomic.{Registered, register_failure_atomic}
use mentor_ia_worker.Postgres.Schedule.{schedule_due_retry_jobs}
use mentor_ia_worker.Postgres.Schedule.Effect.{IsSkipped, schedule_due_retry_jobs_keeps}
use mentor_ia_worker.Tests.Fixtures.{
  server, repository, message, pending_job, running_job, world_with, lease, stale_lease,
  disciplines,
}

abbrev names : Names server message b'j' b'a'
names = record { job = refl; aluno = refl }

begun : World
unfolding begin_processing claim_with after_claim claim_job update_jobs statement
begun = (begin_processing repository message (world_with pending_job)).1

first_lease : ProcessingLease
first_lease = record { message = message; token = 8; created_at = 1000; attempts = 1 }

begins :
    begin_processing repository message (world_with pending_job)
    ≡ (ok (acquired first_lease), begun)
unfolding begin_processing claim_with after_claim claim_job update_jobs statement begun first_lease
begins = refl

begin_processing-acquired_example :
    Leases repository message b'j' b'a' (world_with pending_job) begun first_lease
begin_processing-acquired_example =
    begin_processing-acquired repository message (world_with pending_job) begun first_lease b'j'
      b'a' names (refl, tt) begins

begin_processing_exclusive_example :
    ((begin_processing repository message (world_with running_job)).1.db
      ≡ (world_with running_job).db)
    × ((l : ProcessingLease)
        → (begin_processing repository message (world_with running_job)).0 ≢ ok (acquired l))
begin_processing_exclusive_example =
    begin_processing_exclusive repository message (world_with running_job) b'j' b'a' running_job
      names (refl, tt) refl (IsTaken.leased 9000 refl refl (omega arith))

save_insight_result_atomic_example :
    (((save_insight_result repository lease
          (bytes "Revise funcoes.")
          disciplines
          (world_with running_job)).1.db
        ≡ (world_with running_job).db)
      ⊎ Saved server lease
          (bytes "Revise funcoes.")
          disciplines
          b'j'
          b'a'
          5000
          (world_with running_job).db
          (save_insight_result repository lease
            (bytes "Revise funcoes.")
            disciplines
            (world_with running_job)).1.db)
    × ((save_insight_result repository lease
            (bytes "Revise funcoes.")
            disciplines
            (world_with running_job)).0
          ≡ ok tt
        → Saved server lease
            (bytes "Revise funcoes.")
            disciplines
            b'j'
            b'a'
            5000
            (world_with running_job).db
            (save_insight_result repository lease
              (bytes "Revise funcoes.")
              disciplines
              (world_with running_job)).1.db)
save_insight_result_atomic_example =
    save_insight_result_atomic repository lease (bytes "Revise funcoes.") disciplines
      (world_with running_job) b'j' b'a' names (refl, tt)

other_token :
    (j : InsightJob) → some running_job ≡ some j → j.processing_token ≢ some stale_lease.token
other_token j e h = cc (some_injective e)

register_failure_atomic_example :
    let (result, w') =
      register_failure repository lease
        (pos 3)
        (bytes "AI")
        (plain "timeout")
        (world_with running_job) in
    ((w'.db ≡ (world_with running_job).db)
      ⊎ Registered repository lease
          (pos 3)
          (bytes "AI")
          (summary_of (plain "timeout"))
          b'j'
          b'a'
          5000
          (world_with running_job).db
          w'.db)
    × ((action : FailureAction)
        → result ≡ ok action
        → (s : Registered repository lease
            (pos 3)
            (bytes "AI")
            (summary_of (plain "timeout"))
            b'j'
            b'a'
            5000
            (world_with running_job).db
            w'.db)
          × (action ≡ (if is_exhausted (pos 3) s.job.tentativas then failed else retry)))
register_failure_atomic_example =
    register_failure_atomic repository lease (pos 3) (bytes "AI") (plain "timeout")
      (world_with running_job) b'j' b'a' names (refl, tt)

schedule_due_retry_jobs_keeps_example :
    job_at b'j' (schedule_due_retry_jobs repository 10 (world_with running_job)).1.db.insight_jobs
    ≡ some running_job
schedule_due_retry_jobs_keeps_example =
    schedule_due_retry_jobs_keeps repository 10 (world_with running_job) b'j' running_job (refl, tt)
      refl (IsSkipped.not_waiting_job (λ h. cc))
