-- ===== src/Dispatcher.antt =====
-- internal/insights/outbox/dispatcher.go and internal/insights/retry/scheduler.go: the two loops
-- that work off the tables. Each tick of a ticker is one round.
pub mod Delivery
use mentor_ia_worker.Prelude.{
  ℕ, suc, Bool, true, false, ◌||◌, List, [], ◌∷◌, ℤ, pos, pos_part, leb_ℤ, if◌then◌else◌,
}
use mentor_ia_worker.Text.{Bytes}
use mentor_ia_worker.Domain.{
  Message, InsightFailedEvent, OutboxEvent, OutboxType, insight_failed, insight_requested,
  insight_retry_requested, unknown_type, Codec,
}
use mentor_ia_worker.Domain.Errors.{Error, Result, ok, err, plain, about}
use mentor_ia_worker.Postgres.Rows.{Repository}
use mentor_ia_worker.Postgres.Events.{
  claim_pending_outbox_events, mark_outbox_event_published, mark_outbox_event_failed,
}
use mentor_ia_worker.Postgres.Session.{World, Action, ◌>>=◌, throw, of_result, labelled}

-- The interface Store of package outbox.
pub record Store : Type 0 where
  pub claims : ℕ → ℤ → Action (List OutboxEvent)
  pub marks_published : OutboxEvent → Action (Unit {0})
  pub marks_failed : OutboxEvent → ℤ → Error → Action Bool

abbrev pub repository_store : Repository → Store
repository_store r = record {
  claims = claim_pending_outbox_events r;
  marks_published = mark_outbox_event_published;
  marks_failed = mark_outbox_event_failed r;
}

-- MessagePublisher: a publication returns only when the broker has confirmed or refused it.
pub record MessagePublisher : Type 0 where
  pub publish_insight_message : Message → Action (Unit {0})
  pub publish_to_dlq : InsightFailedEvent → Action (Unit {0})

pub record Dispatcher : Type 0 where
  pub store : Store
  pub codec : Codec
  pub publisher : MessagePublisher
  pub interval : ℤ
  pub batch_size : ℤ
  pub lock : ℤ
  pub max_attempts : ℤ

publish_message : Dispatcher → Bytes → Action (Unit {0})
publish_message d payload = do
  message ←
      labelled "payload de solicitacao de insight invalido: "
        (of_result (d.codec.unmarshal_message payload))
  d.publisher.publish_insight_message message

publish_failure : Dispatcher → Bytes → Action (Unit {0})
publish_failure d payload = do
  failure ←
      labelled "payload de falha definitiva invalido: "
        (of_result (d.codec.unmarshal_failure payload))
  d.publisher.publish_to_dlq failure

publish_as : Dispatcher → Bytes → OutboxType → Action (Unit {0})
unfolding publish_message publish_failure
publish_as d payload insight_requested = publish_message d payload
publish_as d payload insight_retry_requested = publish_message d payload
publish_as d payload insight_failed = publish_failure d payload
publish_as d payload (unknown_type name) =
    throw (about "tipo de evento de outbox desconhecido: " name)

-- publish
pub publish : Dispatcher → OutboxEvent → Action (Unit {0})
unfolding publish_as
publish d event = publish_as d event.payload event.type

-- The mark that follows a publication; its own errors are logged, and the loop goes on. The
-- result says whether the event counts as published.
after_publish : Dispatcher → OutboxEvent → Result (Unit {0}) → World → Bool × World
after_publish d event (err e) w =
    let (_, w') = d.store.marks_failed event d.max_attempts e w in (false, w')
after_publish d event (ok _) w =
    let (r, w') = d.store.marks_published event w in (elim r [ ok _ ↦ true | err _ ↦ false ], w')

dispatch_event : Dispatcher → OutboxEvent → World → Bool × World
unfolding publish after_publish
dispatch_event d event w = let (r, w') = publish d event w in after_publish d event r w'

-- The loop over the claimed events, which counts those published.
dispatch_all : Dispatcher → List OutboxEvent → ℕ → World → ℕ × World
unfolding dispatch_event
dispatch_all d [] count w = (count, w)
dispatch_all d (e ∷ es) count w =
    let (done, w') = dispatch_event d e w in
    dispatch_all d es (if done then suc count else count) w'

claimed_events : Dispatcher → Result (List OutboxEvent) → World → ℕ × World
unfolding dispatch_all
claimed_events d (err _) w = (0, w)
claimed_events d (ok events) w = dispatch_all d events 0 w

-- dispatch
pub dispatch : Dispatcher → World → ℕ × World
unfolding claimed_events
dispatch d w =
    let (r, w') = d.store.claims (pos_part d.batch_size) d.lock w in claimed_events d r w'

rounds : Dispatcher → ℕ → World → World
unfolding dispatch
rounds d ticks w = elim ticks [ ℕ.zero ↦ w | suc (k → ih) ↦ (dispatch d ih).1 ]

-- Run of the dispatcher, for the given number of ticks before the context is done.
unfoldable pub run_dispatcher : Dispatcher → ℕ → Action (Unit {0})
unfolding rounds
run_dispatcher d ticks w =
    if leb_ℤ d.interval (pos 0)
      || leb_ℤ d.batch_size (pos 0)
      || leb_ℤ d.lock (pos 0)
      || leb_ℤ d.max_attempts (pos 0)
    then (err (plain "dispatcher de outbox com configuracao invalida"), w)
    else (ok tt, rounds d (suc ticks) w)

-- The retry scheduler: its Store has one method.
pub record Scheduler : Type 0 where
  pub schedules : ℕ → Action ℕ
  pub interval : ℤ
  pub batch_size : ℤ

-- publishDueJobs; the count and the error are only logged.
pub publish_due_jobs : Scheduler → World → World
publish_due_jobs s w = (s.schedules (pos_part s.batch_size) w).1

scheduler_rounds : Scheduler → ℕ → World → World
unfolding publish_due_jobs
scheduler_rounds s ticks w = elim ticks [ ℕ.zero ↦ w | suc (k → ih) ↦ publish_due_jobs s ih ]

-- Run of the scheduler.
unfoldable pub run_scheduler : Scheduler → ℕ → Action (Unit {0})
unfolding scheduler_rounds
run_scheduler s ticks w =
    if leb_ℤ s.interval (pos 0) || leb_ℤ s.batch_size (pos 0)
    then (err (plain "scheduler de retry com configuracao invalida"), w)
    else (ok tt, scheduler_rounds s (suc ticks) w)
