-- ===== src/Postgres/Events.antt =====
-- internal/insights/postgres/repository.go: the operations on `outbox_eventos`.
pub mod Lock
pub mod Mark
pub mod Refusal
pub mod Keeps
use mentor_ia_worker.Prelude.{
  ℕ, suc, ◌+◌, ◌*◌, Bool, true, false, not, ◌&&◌, Option, none, some, List, map, ℤ, pos, ltb_ℤ, leb,
  ltb, ◌==◌, if◌then◌else◌, any, length, select, take, sort_by, update_where,
}
use mentor_ia_worker.Text.{Bytes}
use mentor_ia_worker.Domain.{OutboxEvent}
use mentor_ia_worker.Domain.Errors.{
  Error, Result, ok, err, plain, sentinel, wrap, dispatch_lost, no_rows, errors_is,
}
use mentor_ia_worker.Postgres.Tables.{
  Server, EventStatus, pending, processing, published, failed, OutboxRow,
}
use mentor_ia_worker.Postgres.Rows.{Repository, whole_seconds, is_past, first_row, with_param}
use mentor_ia_worker.Postgres.Save.{holds_token}
use mentor_ia_worker.Postgres.Failure.{summary_of, backoff_seconds, is_exhausted}
use mentor_ia_worker.Postgres.Schedule.{read_rows}
use mentor_ia_worker.Postgres.Session.{
  World, Action, Statement, ◌>>=◌, ◌>>◌, pure, throw, require, draw, labelled, attempt, statement,
  transaction,
}

-- `(status = 'pending' AND proxima_tentativa_em <= NOW())
--   OR (status = 'processing' AND lock_expira_em <= NOW())`
abbrev pub is_available_in : ℕ → EventStatus → ℕ → Option ℕ → Bool
is_available_in now pending retry_at lock_end = leb retry_at now
is_available_in now processing retry_at lock_end = is_past now lock_end
is_available_in now _ retry_at lock_end = false

abbrev pub is_available : ℕ → OutboxRow → Bool
is_available now r = is_available_in now r.status r.proxima_tentativa_em r.lock_expira_em

-- `ORDER BY proxima_tentativa_em ASC, criado_em ASC`
published_before : OutboxRow → OutboxRow → Bool
published_before r s =
    if r.proxima_tentativa_em == s.proxima_tentativa_em
    then leb r.criado_em s.criado_em
    else leb r.proxima_tentativa_em s.proxima_tentativa_em

-- The rows of `eventos_disponiveis`.
available_events : ℕ → World → List OutboxRow
unfolding published_before
available_events limit w = take limit (
    sort_by published_before
      (select (λ r. is_available w.now r && not (w.locked r.id)) w.db.outbox_eventos))

abbrev pub dispatched : ℕ → ℕ → ℕ → OutboxRow → OutboxRow
dispatched now token seconds r = record r {
  status = processing;
  processing_token = some token;
  lock_expira_em = some (now + 1000 * seconds);
  tentativas = suc r.tentativas;
}

-- `WHERE oe.id = ed.id`
abbrev pub is_among : List OutboxRow → OutboxRow → Bool
is_among rows r = any (λ s. s.id == r.id) rows

event_of : ℕ → OutboxRow → OutboxEvent
event_of token r = record {
  id = r.id;
  type = r.tipo;
  payload = r.payload;
  processing_token = token;
  attempts = r.tentativas;
}

-- The UPDATE with its RETURNING, whose order SQL leaves open: that of the table is taken.
claim_events : ℕ → ℕ → ℕ → Statement (List OutboxEvent)
unfolding available_events event_of
claim_events limit token seconds w =
    let mine = is_among (available_events limit w) in
    let change = dispatched w.now token seconds in
    (
      ok (map (λ r. event_of token (change r)) (select mine w.db.outbox_eventos)),
      record w.db { outbox_eventos = update_where mine change w.db.outbox_eventos },
    )

claim_body : Repository → ℕ → ℕ → Action (List OutboxEvent)
unfolding claim_events read_rows
claim_body r limit seconds = do
  token ← draw r.server
  events ←
      labelled "falha ao buscar eventos de outbox: " (statement (claim_events limit token seconds))
  labelled "falha ao iterar eventos de outbox: " (statement read_rows)
  pure events

-- ClaimPendingOutboxEvents
pub claim_pending_outbox_events : Repository → ℕ → ℤ → Action (List OutboxEvent)
unfolding claim_body
claim_pending_outbox_events r limit lock = do
  require (ltb_ℤ (pos 0) lock) (plain "lockDuration deve ser maior que zero")
  require (ltb 0 (whole_seconds lock)) (plain "lockDuration deve ter pelo menos um segundo")
  transaction "falha ao iniciar transacao de claim da outbox: "
      "falha ao confirmar claim de eventos da outbox: " (claim_body r limit (whole_seconds lock))

abbrev pub is_processing_event : EventStatus → Bool
is_processing_event processing = true
is_processing_event _ = false

-- `WHERE id = $1 AND status = 'processing' AND processing_token = $2`
abbrev pub is_held : OutboxEvent → OutboxRow → Bool
is_held event r =
    r.id == event.id
    && (is_processing_event r.status && holds_token event.processing_token r.processing_token)

abbrev pub published_row : ℕ → OutboxRow → OutboxRow
published_row now r = record r {
  status = published;
  publicado_em = some now;
  processing_token = none;
  lock_expira_em = none;
  erro_resumo = none;
}

unfoldable pub publish_row : OutboxEvent → Statement ℕ
publish_row event w = (
  ok (length (select (is_held event) w.db.outbox_eventos)),
  record w.db {
    outbox_eventos = update_where (is_held event) (published_row w.now) w.db.outbox_eventos;
  },
)

-- MarkOutboxEventPublished
unfoldable pub mark_outbox_event_published : OutboxEvent → Action (Unit {0})
unfolding publish_row
mark_outbox_event_published event = do
  affected ←
      labelled "falha ao marcar evento de outbox como publicado: " (statement (publish_row event))
  require (ltb 0 affected) (sentinel dispatch_lost)

abbrev pub failed_row : ℕ → ℤ → Bytes → ℕ → OutboxRow → OutboxRow
failed_row now max_attempts summary seconds r = record r {
  status = if is_exhausted max_attempts r.tentativas then failed else pending;
  erro_resumo = some summary;
  proxima_tentativa_em =
      if is_exhausted max_attempts r.tentativas
      then r.proxima_tentativa_em
      else now + 1000 * seconds;
  processing_token = none;
  lock_expira_em = none;
}

unfoldable pub fail_row : Server → OutboxEvent → ℤ → Bytes → ℕ → Statement OutboxRow
fail_row server event max_attempts summary seconds = with_param (server.text_param summary) λ _ w.
    let change = failed_row w.now max_attempts summary seconds in
    (
      first_row (map change (select (is_held event) w.db.outbox_eventos)),
      record w.db { outbox_eventos = update_where (is_held event) change w.db.outbox_eventos },
    )

abbrev is_failed : EventStatus → Bool
is_failed failed = true
is_failed _ = false

unfoldable pub failure_marked : Result OutboxRow → Action Bool
failure_marked (ok r) = pure (is_failed r.status)
failure_marked (err e) =
    if errors_is no_rows e
    then throw (sentinel dispatch_lost)
    else throw (wrap "falha ao registrar falha de evento da outbox: " e)

-- MarkOutboxEventFailed: whether the event has failed for good.
unfoldable pub mark_outbox_event_failed : Repository → OutboxEvent → ℤ → Error → Action Bool
unfolding fail_row failure_marked
mark_outbox_event_failed r event max_attempts failure = do
  require (ltb_ℤ (pos 0) max_attempts) (plain "maxAttempts deve ser maior que zero")
  row ← attempt (
      statement (
        fail_row r.server event max_attempts (summary_of failure) (backoff_seconds event.attempts)))
  failure_marked row
