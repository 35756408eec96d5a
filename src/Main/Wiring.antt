-- ===== src/Main/Wiring.antt =====
-- cmd/insights-worker/main.go: the parts that run makes of the configuration.
use mentor_ia_worker.Prelude.{
  ℕ, suc, zero, ◌*◌, ◌<◌, ◌≡◌, refl, ap, ◌∙◌, false, some, ℤ, pos, negsuc, pos_part, leb_ℤ, two_63,
  ◌*ℤ◌, *ℤ_fits, arith,
}
use mentor_ia_worker.Text.{Bytes}
use mentor_ia_worker.Domain.{Codec}
use mentor_ia_worker.Domain.Errors.{ok}
use mentor_ia_worker.Postgres.Tables.{Server}
use mentor_ia_worker.Postgres.Rows.{Repository}
use mentor_ia_worker.Postgres.Session.{World, Action}
use mentor_ia_worker.Postgres.Schedule.{schedule_due_retry_jobs}
use mentor_ia_worker.Prompt.{FormatPercent}
use mentor_ia_worker.Service
use mentor_ia_worker.Worker
use mentor_ia_worker.Worker.Pool
use mentor_ia_worker.Dispatcher
use mentor_ia_worker.OpenRouter
use mentor_ia_worker.Config.{Environment, Numbers, seconds, milliseconds, validated}
use mentor_ia_worker.Config.Validity.{Passed, check_numbers-Passed}
use mentor_ia_worker.Config.Url.{UrlLibrary}
use mentor_ia_worker.Config.Load.{Config, assembled}
use mentor_ia_worker.Config.Load.Secrets.{validated-checked}

-- What the parts are made of besides the configuration: the database, encoding/json, the format of
-- a float64, the client of OpenRouter with its transport, and the client of RabbitMQ as the
-- interfaces MessagePublisher and DeadLetterPublisher see it.
pub record Materials : Type 0 where
  pub server : Server
  pub codec : Codec
  pub format : FormatPercent
  pub model : OpenRouter.Client
  pub transport : OpenRouter.Transport
  pub publisher : Dispatcher.MessagePublisher
  pub dead_letters : Bytes → Action (Unit {0})

-- The parts that run starts, and the concurrency of the consumer.
pub record Parts : Type 0 where
  pub consumer : Worker.Consumer
  pub concurrency : ℤ
  pub scheduler : Dispatcher.Scheduler
  pub dispatcher : Dispatcher.Dispatcher

abbrev pub repository : Materials → Config → Repository
repository x cfg = record { server = x.server; codec = x.codec; lease_duration = cfg.insight_lease }

abbrev pub service : Materials → Config → Service.Service
service x cfg = record {
  store = some (Service.repository_store (repository x cfg));
  ai_client = some (record { complete = OpenRouter.complete x.model x.transport });
  max_attempts = cfg.insight_max_attempts;
  format = x.format;
}

unfoldable pub parts : Materials → Config → Parts
parts x cfg = record {
  consumer = record {
    codec = x.codec;
    processor = Service.process (service x cfg);
    dead_letter_publisher = some x.dead_letters;
  };
  concurrency = cfg.worker_concurrency;
  scheduler = record {
    schedules = schedule_due_retry_jobs (repository x cfg);
    interval = cfg.insight_retry_poll;
    batch_size = cfg.insight_retry_batch_size;
  };
  dispatcher = record {
    store = Dispatcher.repository_store (repository x cfg);
    codec = x.codec;
    publisher = x.publisher;
    interval = cfg.outbox_poll;
    batch_size = cfg.outbox_batch_size;
    lock = cfg.outbox_lock;
    max_attempts = cfg.outbox_max_attempts;
  };
}

-- A positive number of units that fits 63 bits is a positive duration.
scaled-positive :
    (n : ℤ) (unit : ℕ)
    → leb_ℤ n (pos 0) ≡ false
    → pos_part n * suc unit < two_63
    → leb_ℤ (n *ℤ pos (suc unit)) (pos 0) ≡ false
scaled-positive (pos zero) unit h f = ground arith
scaled-positive (pos (suc n)) unit h f = rw (*ℤ_fits (suc n) (suc unit) f) (ground arith)
scaled-positive (negsuc n) unit h f = ground arith

scheduler-ok :
    (s : Dispatcher.Scheduler)
    → leb_ℤ s.interval (pos 0) ≡ false
    → leb_ℤ s.batch_size (pos 0) ≡ false
    → (ticks : ℕ) (w : World) → (Dispatcher.run_scheduler s ticks w).0 ≡ ok tt
unfolding Dispatcher.run_scheduler
scheduler-ok s h k ticks w = rw (h, k) refl

dispatcher-ok :
    (d : Dispatcher.Dispatcher)
    → leb_ℤ d.interval (pos 0) ≡ false
    → leb_ℤ d.batch_size (pos 0) ≡ false
    → leb_ℤ d.lock (pos 0) ≡ false
    → leb_ℤ d.max_attempts (pos 0) ≡ false
    → (ticks : ℕ) (w : World) → (Dispatcher.run_dispatcher d ticks w).0 ≡ ok tt
unfolding Dispatcher.run_dispatcher
dispatcher-ok d h k l m ticks w = rw (h, k, l, m) refl

pool-ok : (n : ℤ) → leb_ℤ n (pos 0) ≡ false → Pool.run n ≡ ok (Pool.started (pos_part n))
unfolding Pool.run
pool-ok n h = rw h refl

validated-Passed : (env : Environment) (n : Numbers) → validated env ≡ ok n → Passed n
validated-Passed env n h = check_numbers-Passed n (validated-checked env n h)

-- None of the parts that run makes of a configuration that Load accepts, and whose intervals and
-- lock fit Go's int64, refuses its settings: the consumer starts with at least one worker, and the
-- scheduler and the dispatcher go on until the context is done.
pub parts-run :
    {Url : Type 0} (library : UrlLibrary Url) (env : Environment) (n : Numbers) (x : Materials)
    → validated env ≡ ok n
    → pos_part n.retry_poll_ms * 1000000 < two_63
    → pos_part n.outbox_poll_ms * 1000000 < two_63
    → pos_part n.outbox_lock_seconds * 1000000000 < two_63
    → let p = parts x (assembled library env n) in
      ((k : ℕ) × (Pool.run p.concurrency ≡ ok (Pool.started (suc k))))
      × ((ticks : ℕ) (w : World) → (Dispatcher.run_scheduler p.scheduler ticks w).0 ≡ ok tt)
      × ((ticks : ℕ) (w : World) → (Dispatcher.run_dispatcher p.dispatcher ticks w).0 ≡ ok tt)
unfolding parts assembled seconds milliseconds
parts-run library env n x h retry_fits poll_fits lock_fits =
    let passed = validated-Passed env n h in
    let (k, at_least_one) = positive-suc n.worker_concurrency passed.concurrency in
    (
      (
        k,
        pool-ok n.worker_concurrency passed.concurrency
            ∙ ap (λ c. ok (Pool.started c)) at_least_one,
      ),
      scheduler-ok _ (scaled-positive n.retry_poll_ms 999999 passed.retry_poll retry_fits)
          passed.retry_batch,
      dispatcher-ok _ (scaled-positive n.outbox_poll_ms 999999 passed.outbox_poll poll_fits)
          passed.outbox_batch
          (scaled-positive n.outbox_lock_seconds 999999999 passed.outbox_lock lock_fits)
          passed.outbox_attempts,
    )
  where
    positive-suc : (n : ℤ) → leb_ℤ n (pos 0) ≡ false → (k : ℕ) × (pos_part n ≡ suc k)
    positive-suc (pos zero) h = absurd (ground arith)
    positive-suc (pos (suc k)) h = (k, refl)
    positive-suc (negsuc k) h = absurd (ground arith)
