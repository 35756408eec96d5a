-- ===== src/Postgres/Schedule.antt =====
-- internal/insights/postgres/repository.go: ScheduleDueRetryJobs.
pub mod Effect
pub mod Keeps
pub mod Batch
use mentor_ia_worker.Prelude.{
  ℕ, Bool, true, false, not, ◌&&◌, Option, none, some, List, [], ◌∷◌, map, leb, if◌then◌else◌,
  length, select, take, sort_by, update_where,
}
use mentor_ia_worker.Domain.{Message, insight_retry_requested}
use mentor_ia_worker.Domain.Errors.{ok}
use mentor_ia_worker.Postgres.Tables.{Server, Status, pendente, aguardando_retentativa, InsightJob}
use mentor_ia_worker.Postgres.Rows.{Repository, has_ids, is_past, with_param}
use mentor_ia_worker.Postgres.Failure.{insert_event}
use mentor_ia_worker.Postgres.Session.{
  World, Action, Statement, ◌>>=◌, ◌>>◌, pure, draw, labelled, statement, transaction,
}

abbrev pub is_waiting : Status → Bool
is_waiting aguardando_retentativa = true
is_waiting _ = false

-- `status = 'aguardando_retentativa' AND proxima_tentativa_em <= NOW()`
abbrev pub is_due : ℕ → InsightJob → Bool
is_due now j = is_waiting j.status && is_past now j.proxima_tentativa_em

-- The order of two instants that are not null.
abbrev pub leb_instant : Option ℕ → Option ℕ → Bool
leb_instant (some s) (some t) = leb s t
leb_instant none (some t) = false
leb_instant _ none = true

abbrev eq_instant : Option ℕ → Option ℕ → Bool
eq_instant s t = leb_instant s t && leb_instant t s

-- `ORDER BY proxima_tentativa_em ASC, atualizado_em ASC`
retried_before : InsightJob → InsightJob → Bool
retried_before j k =
    if eq_instant j.proxima_tentativa_em k.proxima_tentativa_em
    then leb j.atualizado_em k.atualizado_em
    else leb_instant j.proxima_tentativa_em k.proxima_tentativa_em

message_of : Server → InsightJob → Message
message_of server j = record {
  job_id = server.uuid_text j.id;
  aluno_id = server.uuid_text j.aluno_id;
}

-- `SELECT … LIMIT $1 FOR UPDATE SKIP LOCKED`
pub due_jobs : ℕ → World → List InsightJob
unfolding retried_before
due_jobs limit w =
    take limit (
      sort_by retried_before
        (select (λ j. is_due w.now j && not (w.locked j.id)) w.db.insight_jobs))

due_messages : Server → ℕ → Statement (List Message)
unfolding due_jobs message_of
due_messages server limit w = (ok (map (message_of server) (due_jobs limit w)), w.db)

abbrev pub requeued : ℕ → InsightJob → InsightJob
requeued now j = record j {
  status = pendente;
  processing_token = none;
  lease_expira_em = none;
  proxima_tentativa_em = none;
  atualizado_em = now;
}

-- `UPDATE insight_jobs SET status = 'pendente', … WHERE id = $1 AND aluno_id = $2`
requeue_job : Server → Message → Statement (Unit {0})
requeue_job server m = with_param (server.uuid_param m.job_id) λ i.
    with_param (server.uuid_param m.aluno_id) λ a w. (
      ok tt,
      record w.db { insight_jobs = update_where (has_ids i a) (requeued w.now) w.db.insight_jobs },
    )

-- The loop over the messages.
schedule_all : Repository → List Message → Action (Unit {0})
unfolding requeue_job insert_event
schedule_all r [] = pure tt
schedule_all r (m ∷ ms) =
    let rest = schedule_all r ms in
    do
      labelled "falha ao marcar job para retry: " (statement (requeue_job r.server m))
      id ← draw r.server
      labelled "falha ao criar evento de outbox para retry: " (
          statement
            (insert_event r.server id m.job_id insight_retry_requested (r.codec.marshal_message m)))
      rest

-- `rows.Next` and `rows.Err`: reading the rest of a result may fail.
unfoldable pub read_rows : Statement (Unit {0})
read_rows w = (ok tt, w.db)

schedule_body : Repository → ℕ → Action ℕ
unfolding due_messages schedule_all read_rows
schedule_body r limit = do
  messages ← labelled "falha ao buscar jobs para retry: " (statement (due_messages r.server limit))
  labelled "falha ao iterar jobs para retry: " (statement read_rows)
  schedule_all r messages
  pure (length messages)

-- ScheduleDueRetryJobs
pub schedule_due_retry_jobs : Repository → ℕ → Action ℕ
unfolding schedule_body
schedule_due_retry_jobs r limit =
    transaction "falha ao iniciar transacao de retry: " "falha ao confirmar jobs de retry: "
      (schedule_body r limit)
