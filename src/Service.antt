-- ===== src/Service.antt =====
-- internal/insights/service/service.go: the use case, over the interfaces of its store and of the
-- AI client. The logger and the metrics change nothing and are left out.
pub mod Outcome
pub mod Retries
use mentor_ia_worker.Prelude.{
  ℕ, String, Bool, true, Option, none, some, List, ℤ, pos, leb_ℤ, if◌then◌else◌,
}
use mentor_ia_worker.Text.{Bytes, bytes}
use mentor_ia_worker.Domain.{
  Message, DisciplinePerformance, ProcessingLease, FailureAction, failed, retry,
}
use mentor_ia_worker.Domain.Errors.{
  Error, Result, ok, err, plain, caused_by, and_also, job_failed, retry_scheduled, lease_lost,
  errors_is, as_retryable,
}
use mentor_ia_worker.Prompt.{FormatPercent, build}
use mentor_ia_worker.Postgres.Session.{
  World, Action, ◌>>=◌, ◌>>◌, pure, throw, require, labelled, attempt,
}
use mentor_ia_worker.Postgres.Rows.{Repository}
use mentor_ia_worker.Postgres.Begin.{
  Begun, acquired, already_handled, begin_processing, find_lowest_performance_disciplines,
}
use mentor_ia_worker.Postgres.Save.{save_insight_result}
use mentor_ia_worker.Postgres.Failure.{register_failure}

-- The interface Store.
pub record Store : Type 0 where
  pub begins : Message → Action Begun
  pub finds : Bytes → ℕ → Action (List DisciplinePerformance)
  pub saves : ProcessingLease → Bytes → List DisciplinePerformance → Action (Unit {0})
  pub registers : ProcessingLease → ℤ → Bytes → Error → Action FailureAction

-- The store that main.go passes in.
abbrev pub repository_store : Repository → Store
repository_store r = record {
  begins = begin_processing r;
  finds = find_lowest_performance_disciplines r;
  saves = save_insight_result r;
  registers = register_failure r;
}

-- The interface AIClient. While a completion is awaited the other workers go on, so it is an
-- action on the world.
pub record AiClient : Type 0 where
  pub complete : Bytes → Action Bytes

-- A nil interface is `none`.
pub record Service : Type 0 where
  pub store : Option Store
  pub ai_client : Option AiClient
  pub max_attempts : ℤ
  pub format : FormatPercent

abbrev or_true : Option Bool → Bool
or_true none = true
or_true (some b) = b

-- isRetryable
unfoldable pub is_retryable : Error → Bool
is_retryable e = or_true (as_retryable e)

unfoldable pub attempts_allowed : Service → Error → ℤ
attempts_allowed s failure = if is_retryable failure then s.max_attempts else pos 1

unfoldable pub failure_result : Error → Result FailureAction → Action (Unit {0})
failure_result failure (err e) =
    if errors_is lease_lost e then pure tt else throw (and_also failure e)
failure_result failure (ok failed) = throw (caused_by job_failed failure)
failure_result failure (ok retry) = throw (caused_by retry_scheduled failure)

-- registerFailure
unfoldable pub fail_job : Service → Store → ProcessingLease → String → Error → Action (Unit {0})
fail_job s store lease code failure = do
  action ← attempt (store.registers lease (attempts_allowed s failure) (bytes code) failure)
  failure_result failure action

unfoldable pub after_save :
    Service → Store → ProcessingLease → Result (Unit {0}) → Action (Unit {0})
after_save s store lease (ok t) = pure tt
after_save s store lease (err e) =
    if errors_is lease_lost e then pure tt else fail_job s store lease "INSIGHT_SAVE_FAILED" e

unfoldable pub after_completion :
    Service
    → Store
    → ProcessingLease
    → List DisciplinePerformance
    → Result Bytes
    → Action (Unit {0})
after_completion s store lease ds (ok content) = do
  saved ← attempt (store.saves lease content ds)
  after_save s store lease saved
after_completion s store lease ds (err e) = fail_job s store lease "AI_COMPLETION_FAILED" e

unfoldable pub after_query :
    Service
    → Store
    → AiClient
    → ProcessingLease
    → Result (List DisciplinePerformance)
    → Action (Unit {0})
after_query s store ai lease (ok ds) = do
  content ← attempt (ai.complete (build s.format ds))
  after_completion s store lease ds content
after_query s store ai lease (err e) = fail_job s store lease "DISCIPLINES_QUERY_FAILED" e

-- The work under a lease; a job that was not acquired is handled already.
unfoldable pub after_begin : Service → Store → AiClient → Begun → Action (Unit {0})
after_begin s store ai already_handled = pure tt
after_begin s store ai (acquired lease) = do
  found ← attempt (store.finds lease.message.aluno_id 3)
  after_query s store ai lease found

unfoldable pub process_with : Service → Store → AiClient → Message → Action (Unit {0})
process_with s store ai m = do
  begun ← labelled "falha ao iniciar processamento do insight: " (store.begins m)
  after_begin s store ai begun

unfoldable pub checked : Service → Option Store → Option AiClient → Message → Action (Unit {0})
checked s none ai m = throw (plain "store de insights nao configurado")
checked s (some store) none m = throw (plain "cliente de IA nao configurado")
checked s (some store) (some ai) m =
    if leb_ℤ s.max_attempts (pos 0)
    then throw (plain "maxAttempts deve ser maior que zero")
    else process_with s store ai m

-- Process
unfoldable pub process : Service → Message → Action (Unit {0})
process s m = checked s s.store s.ai_client m
