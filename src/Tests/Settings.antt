-- ===== src/Tests/Settings.antt =====
-- Environments, the configurations that Load makes of them, and runs with them.
use mentor_ia_worker.Prelude.{
  ℕ, suc, arith, String, ◌≡◌, refl, true, false, none, some, List, [], ◌∷◌, ◌++◌, ◌↔◌, All, pos,
  ◌+ℤ◌, ◌*ℤ◌, eq_bytes, if◌then◌else◌,
}
use mentor_ia_worker.Text.{Bytes, bytes, trim_space, trim_right_byte, decimal, decimal_digits}
use mentor_ia_worker.Domain.Errors.{Result, ok, err, plain}
use mentor_ia_worker.Config.{
  Environment, Numbers, get_env_string, get_env_int, read_numbers, seconds, milliseconds,
  batch_duration, check_numbers, check_present, check_production, validated,
}
use mentor_ia_worker.Config.Numerals.{get_env_int-decimal}
use mentor_ia_worker.Config.Url.{UrlLibrary, get_database_url}
use mentor_ia_worker.Config.Load.{Config, assembled, load, log_attrs}
use mentor_ia_worker.Config.Load.Secrets.{url_with, log_attrs_secret}
use mentor_ia_worker.Main.{
  context_done, Outside, Process, pinged, new_pool, connect_pool, watch_connection, waited,
  closing_client, with_client, closing_pool, with_pool, with_model, configured, run,
}
use mentor_ia_worker.Main.Closing.{IsClosed, run-IsClosed, run-ok}
use mentor_ia_worker.Main.Wiring.{Materials, parts, parts-run}
use mentor_ia_worker.Postgres.Session.{World}
use mentor_ia_worker.Worker.Pool
use mentor_ia_worker.Dispatcher.{run_scheduler, run_dispatcher}
use mentor_ia_worker.Tests.Fixtures.{server, codec}
use mentor_ia_worker.Tests.Providers.{client, transport}
use mentor_ia_worker.OpenRouter.{new}
use mentor_ia_worker.Rabbitmq.Library.{
  close_handle, dial, open_channel, declare_queue, set_prefetch, check,
}
use mentor_ia_worker.Rabbitmq.Connection.{
  usable, checked, declare_queues, declare_topology, open_consumer_channel, open_publisher_channel,
  with_publisher, prepared, connected, connect, consume, close,
}

-- A URL is its text, and has no host.
abbrev urls : UrlLibrary Bytes
urls = record {
  parse = λ s. ok s;
  hostname = λ u. [];
  port = λ u. [];
  with_host = λ h u. u;
  text = λ u. u;
  join_host_port = λ h p. h ++ p;
}

abbrev variables : List (String × Bytes)
variables =
    ("APP_ENV", bytes "production")
    ∷ ("DATABASE_URL", bytes "postgresql://u:p@h/d")
    ∷ ("RABBITMQ_URL", bytes "amqp://u:p@h")
    ∷ ("AI_PROVIDER_API_KEY", bytes "k")
    ∷ ("AI_PROVIDER_BASE_URL", bytes "http://h")
    ∷ []

abbrev variable : List (String × Bytes) → Bytes → Bytes
variable [] key = []
variable ((name, value) ∷ rest) key = if eq_bytes (bytes name) key then value else variable rest key

abbrev env : Environment
env key = variable variables (bytes key)

abbrev numbers : Numbers
numbers = record {
  request_timeout_ms = pos 20000;
  max_attempts = pos 3;
  lease_seconds = pos 120;
  worker_concurrency = pos 1;
  rabbitmq_prefetch = pos 1;
  rabbitmq_publish_timeout_ms = pos 5000;
  retry_poll_ms = pos 5000;
  retry_batch_size = pos 10;
  outbox_poll_ms = pos 5000;
  outbox_batch_size = pos 4;
  outbox_lock_seconds = pos 30;
  outbox_max_attempts = pos 5;
}

abbrev pub config : Config
config = assembled urls env numbers

reads : read_numbers env ≡ ok numbers
unfolding read_numbers get_env_int trim_space bytes
reads = refl

checks : check_numbers numbers ≡ ok tt
unfolding check_numbers seconds milliseconds batch_duration ◌*ℤ◌ ◌+ℤ◌
checks = refl

produces : check_production env ≡ ok tt
unfolding check_production check_present get_env_string trim_space bytes
produces = refl

validates : validated env ≡ ok numbers
unfolding validated
validates = rw (reads, checks, produces) refl

loads : load urls env ≡ ok config
unfolding load
loads = rw validates refl

log_attrs_secret_example :
    log_attrs (record config {
      ai_provider_api_key = b'k' ∷ [];
      database_url = url_with (b'p' ∷ []) (b'u' ∷ b':' ∷ b'p' ∷ []) (b'h' ∷ []);
      rabbitmq_url = url_with (b'a' ∷ []) (b'u' ∷ b':' ∷ b'p' ∷ []) (b'h' ∷ []);
    })
    ≡ log_attrs (record config {
      ai_provider_api_key = b'l' ∷ [];
      database_url = url_with (b'p' ∷ []) (b'v' ∷ b':' ∷ b'q' ∷ []) (b'h' ∷ []);
      rabbitmq_url = url_with (b'a' ∷ []) (b'v' ∷ b':' ∷ b'@' ∷ []) (b'h' ∷ []);
    })
log_attrs_secret_example =
    log_attrs_secret config (b'k' ∷ []) (b'l' ∷ []) (b'p' ∷ []) (b'u' ∷ b':' ∷ b'p' ∷ [])
      (b'v' ∷ b':' ∷ b'q' ∷ []) (b'h' ∷ []) (b'a' ∷ []) (b'u' ∷ b':' ∷ b'p' ∷ [])
      (b'v' ∷ b':' ∷ b'@' ∷ []) (b'h' ∷ []) refl (refl, tt) (refl, tt) (refl, tt) (refl, tt)

in_production : config.app_env ≡ bytes "production"
unfolding assembled get_env_string trim_space bytes
in_production = refl

-- Of errors, the last one is returned.
waits : List (Result (Unit {0})) → Result (Unit {0})
waits [] = ok tt
waits (ok _ ∷ rs) = waits rs
waits (err e ∷ rs) = err e

waits-ok :
    (results : List (Result (Unit {0}))) → (waits results ≡ ok tt) ↔ All (λ r. r ≡ ok tt) results
unfolding waits
waits-ok [] = (λ h. tt, λ h. refl)
waits-ok (ok _ ∷ rs) = (λ h. (refl, (waits-ok rs).0 h), λ h. (waits-ok rs).1 h.1)
waits-ok (err e ∷ rs) = (λ h. cc, λ h. cc (h.0))

abbrev outside : Outside
outside = record {
  group = record { wait = waits; wait-ok = waits-ok };
  pool_error = none;
  ping_error = none;
  consumer = ok tt;
  scheduler = ok tt;
  dispatcher = ok tt;
  watched = context_done;
  is_closed = λ e. false;
}

abbrev process : Process
process = record {
  pools = 0;
  broker = record {
    opened = 0;
    live = [];
    queues = [];
    prefetch = [];
    errors = none ∷ some (plain "timeout") ∷ [];
  };
}

run-IsClosed_example : IsClosed 0 ((run urls env outside process).1)
run-IsClosed_example = run-IsClosed urls env outside process refl

-- A process whose calls all work.
abbrev calm : Process
calm = record process { broker = record process.broker { errors = [] } }

configures : (configured outside (ok config) calm).0 ≡ ok tt
unfolding configured with_model connect_pool new_pool pinged with_pool with_client waited
    closing_client closing_pool connect connected prepared with_publisher open_publisher_channel
    open_consumer_channel declare_topology declare_queues checked usable close_handle dial
    open_channel declare_queue set_prefetch check consume close watch_connection waits new assembled
    get_database_url get_env_string trim_space bytes trim_right_byte milliseconds ◌*ℤ◌
configures = refl

runs : (run urls env outside calm).0 ≡ ok tt
unfolding run
runs = rw loads configures

run-ok_example :
    ((cfg : Config) × (load urls env ≡ ok cfg)
      × (eq_bytes cfg.ai_provider (bytes "openrouter") ≡ true))
    × (outside.consumer ≡ ok tt)
    × (outside.scheduler ≡ ok tt)
    × (outside.dispatcher ≡ ok tt)
    × (outside.watched ≡ context_done)
run-ok_example = run-ok urls env outside calm runs

abbrev one_variable : Environment
one_variable key = b'4' ∷ b'2' ∷ b' ' ∷ []

get_env_int-decimal_example : get_env_int one_variable "WORKER_CONCURRENCY" (pos 1) ≡ ok (pos 42)
unfolding trim_space decimal decimal_digits
get_env_int-decimal_example =
    get_env_int-decimal one_variable "WORKER_CONCURRENCY" (pos 1) 42 refl (omega arith)

abbrev pub materials : Materials
materials = record {
  server = server;
  codec = codec;
  format = λ p. [];
  model = client;
  transport = transport;
  publisher = record {
    publish_insight_message = λ m w. (ok tt, w);
    publish_to_dlq = λ f w. (ok tt, w);
  };
  dead_letters = λ body w. (ok tt, w);
}

parts-run_example :
    let p = parts materials (assembled urls env numbers) in
    ((k : ℕ) × (Pool.run p.concurrency ≡ ok (Pool.started (suc k))))
    × ((ticks : ℕ) (w : World) → (run_scheduler p.scheduler ticks w).0 ≡ ok tt)
    × ((ticks : ℕ) (w : World) → (run_dispatcher p.dispatcher ticks w).0 ≡ ok tt)
parts-run_example =
    parts-run urls env numbers materials validates (omega arith) (omega arith) (omega arith)
