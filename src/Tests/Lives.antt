-- ===== src/Tests/Lives.antt =====
-- Jobs from their creation to their end.
use mentor_ia_worker.Prelude.{
  ℕ, ◌⊎◌, ◌==◌, ◌≡◌, ◌≢◌, ◌<◌, refl, sym, subst, length, Bool, true, false, none, some, [], ◌∷◌,
  if◌then◌else◌, head?, arith,
}
use mentor_ia_worker.Text.{Bytes, bytes, trim_space}
use mentor_ia_worker.Domain.Errors.{ok}
use mentor_ia_worker.Postgres.Tables.{Status, InsightJob, job_at, insight_of}
use mentor_ia_worker.Postgres.Session.{World}
use mentor_ia_worker.Postgres.Save.{save_insight_result}
use mentor_ia_worker.Postgres.Schedule.{due_jobs, schedule_due_retry_jobs}
use mentor_ia_worker.Postgres.Schedule.Batch.{IsBatch, schedule_due_retry_jobs-IsBatch}
use mentor_ia_worker.Postgres.Begin.{begin_processing}
use mentor_ia_worker.Postgres.Steps.{Reach, here, next, begins, saves}
use mentor_ia_worker.Postgres.Steps.Events.{KeepsRows, Reach-KeepsRows}
use mentor_ia_worker.Postgres.Steps.Lifecycle.{Moves}
use mentor_ia_worker.Postgres.Steps.Lifecycle.Runs.{JobsAreUnique, Reach-Moves}
use mentor_ia_worker.Postgres.Steps.Lifecycle.Endings.{completed_job, ended_forever}
use mentor_ia_worker.Postgres.Steps.Accounting.{due, failures_due, insights_due}
use mentor_ia_worker.Postgres.Steps.Accounting.Runs.{JobsAreAccounted, Reach-JobsAreAccounted}
use mentor_ia_worker.Tools.DotEnv.{
  Files, IsAbsolute, Rises, IsNearest, search_env, search_env-IsNearest,
}
use mentor_ia_worker.Tests.Fixtures
use mentor_ia_worker.Tests.Fixtures.{message, running_job, world_with, lease, disciplines}
use mentor_ia_worker.Tests.Providers.{transport}
use mentor_ia_worker.Tools.AiCheck.{run, fail}
use mentor_ia_worker.Config.{Environment}

-- The running job is completed.
saved : World
saved =
    (save_insight_result Fixtures.repository lease (bytes "Revise funcoes.") disciplines
      (world_with running_job)).1

saves_it : Reach Fixtures.repository (world_with running_job) saved
unfolding saved
saves_it = next here (saves lease (bytes "Revise funcoes.") disciplines refl)

unique : JobsAreUnique (world_with running_job)
unique = (refl, tt)

nothing_due : (b : Bool) → 0 ≡ due failures_due (head? (if b then running_job ∷ [] else []))
nothing_due true = refl
nothing_due false = refl

no_insight_due : (b : Bool) → 0 ≡ due insights_due (head? (if b then running_job ∷ [] else []))
no_insight_due true = refl
no_insight_due false = refl

accounted : JobsAreAccounted (world_with running_job)
accounted = record {
  job = λ i. record { failures = nothing_due (b'j' == i); insights = no_insight_due (b'j' == i) };
}

Reach-JobsAreAccounted_example : JobsAreAccounted saved
Reach-JobsAreAccounted_example =
    Reach-JobsAreAccounted Fixtures.repository {w = world_with running_job} {w' = saved} saves_it
      unique accounted

Reach-Moves_example :
    (k : InsightJob) × (job_at b'j' saved.db.insight_jobs ≡ some k) × Moves running_job k
unfolding saved
Reach-Moves_example =
    Reach-Moves Fixtures.repository {w = world_with running_job} {u = world_with running_job}
      {v = saved} b'j' running_job here unique
      (saves lease (bytes "Revise funcoes.") disciplines refl) refl

Reach-KeepsRows_example : KeepsRows (world_with running_job) saved
Reach-KeepsRows_example =
    Reach-KeepsRows Fixtures.repository {w = world_with running_job} {w' = saved} saves_it

abbrev finished_job : InsightJob
finished_job = record running_job {
  status = Status.concluido;
  processing_token = none;
  lease_expira_em = none;
  concluido_em = some 4000;
}

-- A message about it comes again.
delivered_again : World
delivered_again = (begin_processing Fixtures.repository message (world_with finished_job)).1

comes_again : Reach Fixtures.repository (world_with finished_job) delivered_again
unfolding delivered_again
comes_again = next here (begins message refl)

ended_forever_example :
    (job_at b'j' delivered_again.db.insight_jobs ≡ some finished_job)
    × (insight_of b'j' delivered_again.db.insights
        ≡ insight_of b'j' (world_with finished_job).db.insights)
ended_forever_example =
    ended_forever Fixtures.repository {w = world_with finished_job} {w' = delivered_again} b'j'
      finished_job comes_again (refl, tt) refl completed_job

-- A job that waits for a retry which has become due.
abbrev due_world : World
due_world =
    record (world_with (record running_job {
      status = Status.aguardando_retentativa;
      processing_token = none;
      lease_expira_em = none;
      proxima_tentativa_em = some 4000;
    })) { now = 5000 }

schedule_due_retry_jobs-IsBatch_example :
    let (result, w') = schedule_due_retry_jobs Fixtures.repository 10 due_world in
    ((w'.db ≡ due_world.db) ⊎ IsBatch 5000 (due_jobs 10 due_world) due_world.db w'.db)
    × ((n : ℕ)
        → result ≡ ok n
        → (n ≡ length (due_jobs 10 due_world))
          × IsBatch 5000 (due_jobs 10 due_world) due_world.db w'.db)
schedule_due_retry_jobs-IsBatch_example =
    schedule_due_retry_jobs-IsBatch Fixtures.repository 10 due_world

-- Files of which one is the `.env` of the root.
abbrev joined : Bytes → Bytes → Bytes
joined (x ∷ []) file = x ∷ file
joined directory file = directory

abbrev is_root_env : Bytes → Bool
is_root_env (x ∷ y ∷ rest) = y == b'.'
is_root_env _ = false

abbrev files : Files
files = record {
  exists = is_root_env;
  join = joined;
  dir = λ d. b'/' ∷ [];
  load = λ path variables. ok variables;
}

rises : Rises files
rises = record { absolute = λ d slash. ([], refl); shorter = shorter_than }
  where
    shorter_than : (d : Bytes) → IsAbsolute d → b'/' ∷ [] ≢ d → 1 < length d
    shorter_than d ([], e) other = absurd (other (sym e))
    shorter_than d (x ∷ rest, e) other = subst (λ p. 1 < length p) (sym e) (omega arith)

search_env-IsNearest_example : IsNearest files (bytes "/a/b") (search_env files 5 (bytes "/a/b"))
unfolding bytes
search_env-IsNearest_example = search_env-IsNearest files rises (bytes "/a/b") (bytes "a/b", refl)

-- The script with no API key.
abbrev no_variables : Environment
no_variables key = []

no_key :
    (run transport no_variables [] (world_with running_job)).0
    ≡ fail (bytes "AI_PROVIDER_API_KEY nao configurada")
unfolding run trim_space bytes
no_key = refl
