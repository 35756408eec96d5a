-- ===== src/Tests/Races.antt =====
-- Two workers that take one job, one after the other.
use mentor_ia_worker.Prelude.{ℕ, ◌+◌, ◌≤◌, ◌≡◌, ◌≢◌, refl, false, some, arith, [], ◌∷◌}
use mentor_ia_worker.Text.{bytes}
use mentor_ia_worker.Domain.{ProcessingLease}
use mentor_ia_worker.Domain.Errors.{ok}
use mentor_ia_worker.Postgres.Tables.{Status, InsightJob}
use mentor_ia_worker.Postgres.Rows.{update_jobs}
use mentor_ia_worker.Postgres.Rows.Laws.{some_injective}
use mentor_ia_worker.Postgres.Session.{World, statement}
use mentor_ia_worker.Postgres.Begin.{acquired, claim_job, after_claim, claim_with, begin_processing}
use mentor_ia_worker.Postgres.Begin.Lease.{Names}
use mentor_ia_worker.Postgres.Save.{save_insight_result}
use mentor_ia_worker.Postgres.Steps.{Reach, here, next, begins, saves, passes}
use mentor_ia_worker.Postgres.Steps.Consistency.{
  IsConsistent, JobsAreConsistent, Reach-JobsAreConsistent,
}
use mentor_ia_worker.Postgres.Steps.Fencing.{IsRefused, second_lease_refuses_first}
use mentor_ia_worker.Postgres.Steps.Backoff.{JobsAreSpaced, retried_after_backoff}
use mentor_ia_worker.Tests.Fixtures.{
  server, repository, message, pending_job, running_job, world_with, stale_lease, disciplines,
}

names : Names server message b'j' b'a'
names = record { job = refl; aluno = refl }

pending_world : JobsAreConsistent (world_with pending_job)
pending_world = ((IsConsistent.fresh refl refl refl refl, tt), (refl, tt))

-- The first worker takes the job; its lease runs out; the second worker takes it.
taken : World
unfolding begin_processing claim_with after_claim claim_job update_jobs statement
taken = (begin_processing repository message (world_with pending_job)).1

expired : World
unfolding taken
expired = record taken { now = 200000; drawn = 9 }

taken_again : World
unfolding begin_processing claim_with after_claim claim_job update_jobs statement expired
taken_again = (begin_processing repository message expired).1

first_lease : ProcessingLease
first_lease = record { message = message; token = 8; created_at = 1000; attempts = 1 }

second_lease : ProcessingLease
second_lease = record { message = message; token = 9; created_at = 1000; attempts = 2 }

saved : World
saved =
    (save_insight_result repository second_lease (bytes "Revise funcoes.") disciplines
      taken_again).1

takes :
    begin_processing repository message (world_with pending_job)
    ≡ (ok (acquired first_lease), taken)
unfolding begin_processing claim_with after_claim claim_job update_jobs statement taken first_lease
takes = refl

takes_again :
    begin_processing repository message expired ≡ (ok (acquired second_lease), taken_again)
unfolding begin_processing claim_with after_claim claim_job update_jobs statement taken expired
    taken_again second_lease
takes_again = refl

expires : Reach repository taken expired
unfolding begin_processing claim_with after_claim claim_job update_jobs statement taken expired
expires = next here (passes 200000 9 (λ i. false) [] (omega arith) (omega arith) refl)

saves_second : Reach repository taken_again saved
unfolding saved
saves_second = next here (saves second_lease (bytes "Revise funcoes.") disciplines refl)

second_lease_refuses_first_example : IsRefused repository first_lease saved
second_lease_refuses_first_example =
    second_lease_refuses_first repository message message b'j' b'a' first_lease second_lease
      (world_with pending_job) taken expired taken_again saved names names pending_world takes
      expires takes_again saves_second

through : Reach repository (world_with pending_job) expired
unfolding begin_processing claim_with after_claim claim_job update_jobs statement taken expired
through =
    next (next here (begins message refl))
      (passes 200000 9 (λ i. false) [] (omega arith) (omega arith) refl)

Reach-JobsAreConsistent_example : JobsAreConsistent expired
Reach-JobsAreConsistent_example =
    Reach-JobsAreConsistent repository {w = world_with pending_job} {w' = expired} through
      pending_world

other_token :
    (j : InsightJob) → some running_job ≡ some j → j.processing_token ≢ some stale_lease.token
other_token j e h = cc (some_injective e)

-- A job that failed at instant 1000 and waits until 16000.
abbrev waiting_job : InsightJob
waiting_job = record pending_job {
  status = Status.aguardando_retentativa;
  tentativas = 1;
  proxima_tentativa_em = some 16000;
  erro_codigo = some (b'A' ∷ []);
}

abbrev due_world : World
due_world = record (world_with waiting_job) { now = 16000 }

retaken : World
unfolding begin_processing claim_with after_claim claim_job update_jobs statement
retaken = (begin_processing repository message due_world).1

third_lease : ProcessingLease
third_lease = record { message = message; token = 8; created_at = 1000; attempts = 2 }

retakes : begin_processing repository message due_world ≡ (ok (acquired third_lease), retaken)
unfolding begin_processing claim_with after_claim claim_job update_jobs statement retaken
    third_lease
retakes = refl

becomes_due : Reach repository (world_with waiting_job) due_world
becomes_due = next here (passes 16000 8 (λ i. false) [] (omega arith) (omega arith) refl)

consistent : JobsAreConsistent (world_with waiting_job)
consistent = ((IsConsistent.waiting 16000 (b'A' ∷ []) refl refl refl refl refl, tt), (refl, tt))

spaced : JobsAreSpaced (world_with waiting_job)
spaced = ((λ at h. let e : 16000 ≡ at = same h in (omega arith, omega arith)), tt)
  where
    same : {x y : ℕ} → some x ≡ some y → x ≡ y
    same q = cc

retried_after_backoff_example : waiting_job.atualizado_em + 5000 ≤ due_world.now
retried_after_backoff_example =
    retried_after_backoff repository message b'j' b'a' waiting_job third_lease
      (world_with waiting_job) due_world retaken names consistent spaced becomes_due refl refl
      retakes
