-- ===== src/Config.antt =====
-- internal/config/config.go: the integers of the environment, and the conditions that Load puts on
-- them. Durations are in nanoseconds, with Go's 64-bit arithmetic.
pub mod Decimal
pub mod Validity
pub mod Url
pub mod Load
pub mod Numerals
use Prim.Native.String
use mentor_ia_worker.Prelude.{
  ℕ, String, ◌≡◌, Bool, true, false, ◌&&◌, ◌||◌, Option, none, some, List, [], ◌∷◌, ◌++◌, ℤ, pos,
  leb_ℤ, ltb_ℤ, ◌+ℤ◌, ◌*ℤ◌, if◌then◌else◌, eq_bytes,
}
use mentor_ia_worker.Text.{Bytes, bytes, is_empty, trim_space}
use mentor_ia_worker.Domain.Errors.{Error, Result, ok, err, external, plain}
use Decimal.{atoi}

-- os.Getenv after godotenv.Load: a variable that is not set reads as the empty text.
abbrev pub Environment : Type 0
Environment = String → Bytes

infixl 5 ◌>>=◌ ◌>>◌
abbrev pub ◌>>=◌ : {A B : Type 0} → Result A → (A → Result B) → Result B
ok a >>= f = f a
err e >>= f = err e

abbrev ◌>>◌ : {B : Type 0} → Result (Unit {0}) → Result B → Result B
m >> k = m >>= λ _. k

-- `if test { return Config{}, fmt.Errorf(message) }`
abbrev refuse_if : Bool → String → Result (Unit {0})
refuse_if true message = err (plain message)
refuse_if false message = ok tt

-- getEnvString
unfoldable pub get_env_string : Environment → String → String → Bytes
get_env_string env key fallback =
    let value = trim_space (env key) in if is_empty value then bytes fallback else value

parsed_int : String → Option ℤ → Result ℤ
parsed_int key none = err (external none false (bytes key ++ bytes " must be a valid integer"))
parsed_int key (some n) = ok n

-- getEnvInt
unfoldable pub get_env_int : Environment → String → ℤ → Result ℤ
unfolding parsed_int
get_env_int env key fallback =
    let value = trim_space (env key) in
    if is_empty value then ok fallback else parsed_int key (atoi value)

-- The twelve integers that Load reads, in the order in which it reads them.
pub record Numbers : Type 0 where
  pub request_timeout_ms : ℤ
  pub max_attempts : ℤ
  pub lease_seconds : ℤ
  pub worker_concurrency : ℤ
  pub rabbitmq_prefetch : ℤ
  pub rabbitmq_publish_timeout_ms : ℤ
  pub retry_poll_ms : ℤ
  pub retry_batch_size : ℤ
  pub outbox_poll_ms : ℤ
  pub outbox_batch_size : ℤ
  pub outbox_lock_seconds : ℤ
  pub outbox_max_attempts : ℤ

unfoldable pub read_numbers : Environment → Result Numbers
read_numbers env = do
  request_timeout_ms ← get_env_int env "AI_REQUEST_TIMEOUT_MS" (pos 20000)
  max_attempts ← get_env_int env "INSIGHT_MAX_ATTEMPTS" (pos 3)
  lease_seconds ← get_env_int env "INSIGHT_PROCESSING_LEASE_SECONDS" (pos 120)
  worker_concurrency ← get_env_int env "WORKER_CONCURRENCY" (pos 1)
  rabbitmq_prefetch ← get_env_int env "RABBITMQ_PREFETCH" worker_concurrency
  rabbitmq_publish_timeout_ms ← get_env_int env "RABBITMQ_PUBLISH_TIMEOUT_MS" (pos 5000)
  retry_poll_ms ← get_env_int env "INSIGHT_RETRY_POLL_INTERVAL_MS" (pos 5000)
  retry_batch_size ← get_env_int env "INSIGHT_RETRY_BATCH_SIZE" (pos 10)
  outbox_poll_ms ← get_env_int env "OUTBOX_POLL_INTERVAL_MS" (pos 5000)
  outbox_batch_size ← get_env_int env "OUTBOX_BATCH_SIZE" (pos 4)
  outbox_lock_seconds ← get_env_int env "OUTBOX_LOCK_SECONDS" (pos 30)
  outbox_max_attempts ← get_env_int env "OUTBOX_MAX_ATTEMPTS" (pos 5)
  ok (record {
    request_timeout_ms = request_timeout_ms;
    max_attempts = max_attempts;
    lease_seconds = lease_seconds;
    worker_concurrency = worker_concurrency;
    rabbitmq_prefetch = rabbitmq_prefetch;
    rabbitmq_publish_timeout_ms = rabbitmq_publish_timeout_ms;
    retry_poll_ms = retry_poll_ms;
    retry_batch_size = retry_batch_size;
    outbox_poll_ms = outbox_poll_ms;
    outbox_batch_size = outbox_batch_size;
    outbox_lock_seconds = outbox_lock_seconds;
    outbox_max_attempts = outbox_max_attempts;
  })

-- `time.Duration(n) * time.Second` and `time.Duration(n) * time.Millisecond`
unfoldable pub seconds : ℤ → ℤ
seconds n = n *ℤ pos 1000000000

unfoldable pub milliseconds : ℤ → ℤ
milliseconds n = n *ℤ pos 1000000

-- `outboxBatchSize+1` publications, one after the other.
unfoldable pub batch_duration : ℤ → ℤ → ℤ
batch_duration batch timeout = (batch +ℤ pos 1) *ℤ timeout

-- The conditions on the integers.
unfoldable pub check_numbers : Numbers → Result (Unit {0})
check_numbers n = do
  refuse_if (leb_ℤ n.request_timeout_ms (pos 0)) "AI_REQUEST_TIMEOUT_MS must be greater than zero"
  refuse_if (leb_ℤ n.max_attempts (pos 0)) "INSIGHT_MAX_ATTEMPTS must be greater than zero"
  refuse_if (leb_ℤ n.lease_seconds (pos 0))
      "INSIGHT_PROCESSING_LEASE_SECONDS must be greater than zero"
  refuse_if (leb_ℤ n.worker_concurrency (pos 0)) "WORKER_CONCURRENCY must be greater than zero"
  refuse_if (ltb_ℤ n.rabbitmq_prefetch n.worker_concurrency)
      "RABBITMQ_PREFETCH must be greater than or equal to WORKER_CONCURRENCY"
  refuse_if (leb_ℤ n.rabbitmq_publish_timeout_ms (pos 0))
      "RABBITMQ_PUBLISH_TIMEOUT_MS must be greater than zero"
  refuse_if (ltb_ℤ (seconds n.lease_seconds) (milliseconds n.request_timeout_ms +ℤ pos 30000000000))
      "INSIGHT_PROCESSING_LEASE_SECONDS must be at least 30 seconds greater than AI_REQUEST_TIMEOUT_MS"
  refuse_if (leb_ℤ n.retry_poll_ms (pos 0))
      "INSIGHT_RETRY_POLL_INTERVAL_MS must be greater than zero"
  refuse_if (leb_ℤ n.retry_batch_size (pos 0)) "INSIGHT_RETRY_BATCH_SIZE must be greater than zero"
  refuse_if (leb_ℤ n.outbox_poll_ms (pos 0)) "OUTBOX_POLL_INTERVAL_MS must be greater than zero"
  refuse_if (leb_ℤ n.outbox_batch_size (pos 0)) "OUTBOX_BATCH_SIZE must be greater than zero"
  refuse_if (leb_ℤ n.outbox_lock_seconds (pos 0)) "OUTBOX_LOCK_SECONDS must be greater than zero"
  refuse_if (leb_ℤ (seconds n.outbox_lock_seconds) (milliseconds n.rabbitmq_publish_timeout_ms))
      "RABBITMQ_PUBLISH_TIMEOUT_MS must be less than OUTBOX_LOCK_SECONDS"
  refuse_if
      (leb_ℤ (seconds n.outbox_lock_seconds)
        (batch_duration n.outbox_batch_size (milliseconds n.rabbitmq_publish_timeout_ms)))
      "OUTBOX_BATCH_SIZE and RABBITMQ_PUBLISH_TIMEOUT_MS must leave a publish timeout margin within OUTBOX_LOCK_SECONDS"
  refuse_if (leb_ℤ n.outbox_max_attempts (pos 0)) "OUTBOX_MAX_ATTEMPTS must be greater than zero"

-- The loop over the variables that production requires.
unfoldable pub check_present : Environment → List String → Result (Unit {0})
check_present env [] = ok tt
check_present env (key ∷ keys) =
    let rest = check_present env keys in
    if is_empty (trim_space (env key))
    then err (external none false (bytes key ++ bytes " nao pode estar vazia em producao"))
    else rest

abbrev pub required_in_production : List String
required_in_production =
    "DATABASE_URL" ∷ "RABBITMQ_URL" ∷ "AI_PROVIDER_API_KEY" ∷ "AI_PROVIDER_BASE_URL" ∷ []

unfoldable pub check_production : Environment → Result (Unit {0})
unfolding check_present
check_production env =
    if eq_bytes (get_env_string env "APP_ENV" "development") (bytes "production")
    then check_present env required_in_production
    else ok tt

-- The part of Load that may fail, in its order.
unfoldable pub validated : Environment → Result Numbers
unfolding check_production
validated env = do n ← read_numbers env; check_numbers n; check_production env; ok n
