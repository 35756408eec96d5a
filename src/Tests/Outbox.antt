-- ===== src/Tests/Outbox.antt =====
-- An event that is published, and one that is out.
use mentor_ia_worker.Prelude.{◌≡◌, ◌≢◌, refl, true, false, none, some, [], ◌∷◌, pos, arith}
use mentor_ia_worker.Domain.{OutboxEvent, OutboxType}
use mentor_ia_worker.Domain.Errors.{ok, plain}
use mentor_ia_worker.Postgres.Tables.{OutboxRow, EventStatus, event_at}
use mentor_ia_worker.Postgres.Session.{World, statement}
use mentor_ia_worker.Postgres.Events.{
  claim_pending_outbox_events, is_held, published_row, publish_row, mark_outbox_event_published,
  failed_row, fail_row, failure_marked, mark_outbox_event_failed,
}
use mentor_ia_worker.Postgres.Events.Lock.{IsOut, claim_pending_outbox_events_exclusive}
use mentor_ia_worker.Postgres.Events.Refusal.{IsRefusal, mark_outbox_event_failed_held}
use mentor_ia_worker.Postgres.Failure.{summary_of, is_exhausted, backoff_seconds}
use mentor_ia_worker.Postgres.Events.Mark.{
  mark_outbox_event_published_held, mark_outbox_event_published_stale,
}
use mentor_ia_worker.Dispatcher.{Dispatcher, dispatch}
use mentor_ia_worker.Dispatcher.Delivery.{Delivers, dispatch-Delivers}
use mentor_ia_worker.Tests.Fixtures.{server, codec, repository, running_job, world_with}

-- An event that is held under token 7 until instant 9000.
abbrev held_row : OutboxRow
held_row = record {
  id = 3;
  job_id = b'j';
  tipo = OutboxType.insight_requested;
  payload = b'j' ∷ b'a' ∷ [];
  status = EventStatus.processing;
  tentativas = 1;
  erro_resumo = none;
  proxima_tentativa_em = 1000;
  processing_token = some 7;
  lock_expira_em = some 9000;
  criado_em = 1000;
  publicado_em = none;
}

abbrev event : OutboxEvent
event = record {
  id = 3;
  type = OutboxType.insight_requested;
  payload = b'j' ∷ b'a' ∷ [];
  processing_token = 7;
  attempts = 1;
}

abbrev world : World
world = record (world_with running_job) {
  db = record (world_with running_job).db { outbox_eventos = held_row ∷ [] };
}

claim_pending_outbox_events_exclusive_example :
    event_at 3
      (claim_pending_outbox_events repository 4 (pos 30000000000) world).1.db.outbox_eventos
    ≡ some held_row
claim_pending_outbox_events_exclusive_example =
    claim_pending_outbox_events_exclusive repository 4 (pos 30000000000) world 3 held_row (refl, tt)
      refl (IsOut.held 9000 refl refl (omega arith))

abbrev after : World
after = record world { db = record world.db { outbox_eventos = published_row 5000 held_row ∷ [] } }

marks : mark_outbox_event_published event world ≡ (ok tt, after)
unfolding mark_outbox_event_published publish_row statement
marks = refl

mark_outbox_event_published_held_example :
    (row : OutboxRow) × (event_at 3 world.db.outbox_eventos ≡ some row)
    × (is_held event row ≡ true)
    × (event_at 3 after.db.outbox_eventos ≡ some (published_row 5000 row))
mark_outbox_event_published_held_example =
    mark_outbox_event_published_held event world after (refl, tt) marks

-- The publication of the held event fails.
abbrev after_failure : World
after_failure = record world {
  db = record world.db {
    outbox_eventos =
        failed_row 5000 (pos 3) (summary_of (plain "timeout")) (backoff_seconds event.attempts)
          held_row
        ∷ [];
  };
}

marks_failed :
    mark_outbox_event_failed repository event (pos 3) (plain "timeout") world
    ≡ (ok false, after_failure)
unfolding mark_outbox_event_failed fail_row failure_marked statement
marks_failed = refl

mark_outbox_event_failed_held_example :
    (row : OutboxRow) × (later : OutboxRow) × (event_at 3 world.db.outbox_eventos ≡ some row)
    × (is_held event row ≡ true)
    × (false ≡ is_exhausted (pos 3) row.tentativas)
    × (event_at 3 after_failure.db.outbox_eventos ≡ some later)
    × IsRefusal 5000 (pos 3) 1 row later
mark_outbox_event_failed_held_example =
    mark_outbox_event_failed_held repository event (pos 3) (plain "timeout") world after_failure
      false (refl, tt) marks_failed

abbrev late_event : OutboxEvent
late_event = record event { processing_token = 6 }

other_token : held_row.processing_token ≢ some late_event.processing_token
other_token h = cc

mark_outbox_event_published_stale_example :
    ((mark_outbox_event_published late_event world).1.db ≡ world.db)
    × ((mark_outbox_event_published late_event world).0 ≢ ok tt)
mark_outbox_event_published_stale_example =
    mark_outbox_event_published_stale server late_event world held_row (refl, tt) refl other_token

abbrev dispatcher : Dispatcher
dispatcher = record {
  store = record {
    claims = λ n l w. (ok (event ∷ []), w);
    marks_published = mark_outbox_event_published;
    marks_failed = λ e n f w. (ok true, w);
  };
  codec = codec;
  publisher = record {
    publish_insight_message = λ m w. (ok tt, w);
    publish_to_dlq = λ f w. (ok tt, w);
  };
  interval = pos 5000;
  batch_size = pos 4;
  lock = pos 30000;
  max_attempts = pos 5;
}

dispatch-Delivers_example :
    Delivers dispatcher
      (event ∷ [])
      world
      (dispatch dispatcher world).0
      (dispatch dispatcher world).1
dispatch-Delivers_example = dispatch-Delivers dispatcher world world (event ∷ []) refl
