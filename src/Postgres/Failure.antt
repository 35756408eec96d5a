-- ===== src/Postgres/Failure.antt =====
-- internal/insights/postgres/repository.go: RegisterFailure, and the row of a new outbox event.
pub mod Effect
pub mod Atomic
pub mod Keeps
use mentor_ia_worker.Prelude.{
  ℕ, ◌+◌, ◌*◌, min, max, Bool, Option, none, some, List, [], ◌∷◌, ◌++◌, ℤ, pos, leb_ℤ,
  if◌then◌else◌,
}
use mentor_ia_worker.Text.{Bytes, trim_space, truncate}
use mentor_ia_worker.Domain.{
  ProcessingLease, FailureAction, failed, retry, InsightFailedEvent, OutboxType, insight_failed,
}
use mentor_ia_worker.Domain.Errors.{
  Error, Result, ok, err, sentinel, wrap, lease_lost, no_rows, errors_is, error_text,
}
use mentor_ia_worker.Postgres.Tables.{
  Server, Status, falhou, aguardando_retentativa, InsightJob, OutboxRow, EventStatus,
}
use mentor_ia_worker.Postgres.Rows.{Repository, update_jobs, with_param}
use mentor_ia_worker.Postgres.Save.{is_leased}
use mentor_ia_worker.Postgres.Session.{
  World, Action, Statement, ◌>>=◌, ◌>>◌, pure, throw, draw, labelled, attempt, statement,
  transaction,
}

-- The summary of an error that is stored: trimmed, and cut after 500 bytes.
pub summary_of : Error → Bytes
summary_of failure = truncate 500 (trim_space (error_text failure))

-- `LEAST(300, GREATEST(5, tentativas * 15))`, in seconds.
abbrev pub backoff_seconds : ℕ → ℕ
backoff_seconds attempts = min 300 (max 5 (attempts * 15))

-- `tentativas >= $3`
abbrev pub is_exhausted : ℤ → ℕ → Bool
is_exhausted max_attempts attempts = leb_ℤ max_attempts (pos attempts)

abbrev pub failed_attempt : ℕ → ℤ → Bytes → Bytes → InsightJob → InsightJob
failed_attempt now max_attempts code summary j = record j {
  status = if is_exhausted max_attempts j.tentativas then falhou else aguardando_retentativa;
  proxima_tentativa_em =
      if is_exhausted max_attempts j.tentativas
      then none
      else some (now + 1000 * backoff_seconds j.tentativas);
  erro_codigo = some code;
  erro_resumo = some summary;
  processing_token = none;
  lease_expira_em = none;
  atualizado_em = now;
}

unfoldable pub register_attempt :
    Server → ProcessingLease → ℤ → Bytes → Bytes → Statement InsightJob
register_attempt server lease max_attempts code summary =
    with_param (server.uuid_param lease.message.job_id) λ i.
      with_param (server.uuid_param lease.message.aluno_id) λ a.
        with_param (server.text_param code) λ _. with_param (server.text_param summary) λ _ w.
          update_jobs (is_leased i a lease.token) (failed_attempt w.now max_attempts code summary) w

-- A new row of `outbox_eventos`, with the defaults of its columns.
abbrev pub new_event : ℕ → ℕ → ℕ → OutboxType → Bytes → OutboxRow
new_event now id job tipo payload = record {
  id = id;
  job_id = job;
  tipo = tipo;
  payload = payload;
  status = EventStatus.pending;
  tentativas = 0;
  erro_resumo = none;
  proxima_tentativa_em = now;
  processing_token = none;
  lock_expira_em = none;
  criado_em = now;
  publicado_em = none;
}

-- `INSERT INTO outbox_eventos (id, job_id, tipo, payload)`
unfoldable pub insert_event : Server → ℕ → Bytes → OutboxType → Bytes → Statement (Unit {0})
insert_event server id job_id tipo payload = with_param (server.uuid_param job_id) λ i.
    with_param (server.jsonb_param payload) λ json w. (
      ok tt,
      record w.db { outbox_eventos = w.db.outbox_eventos ++ new_event w.now id i tipo json ∷ [] },
    )

-- The error of the UPDATE: a lost lease, or a failure of the call.
pub registered : Result InsightJob → Action InsightJob
registered (ok j) = pure j
registered (err e) =
    if errors_is no_rows e
    then throw (sentinel lease_lost)
    else throw (wrap "falha ao registrar erro do job de insight: " e)

pub announce : Repository → ProcessingLease → Bytes → Bytes → Status → Action FailureAction
announce r lease code summary falhou = do
  id ← draw r.server
  labelled "falha ao criar evento de outbox para falha definitiva: " (
      statement (
        insert_event r.server id lease.message.job_id insight_failed (
          r.codec.marshal_failure (record {
            job_id = lease.message.job_id;
            aluno_id = lease.message.aluno_id;
            error_code = code;
            error_summary = summary;
          }))))
  pure failed
announce r lease code summary _ = pure retry

unfoldable pub register : Repository → ProcessingLease → ℤ → Bytes → Bytes → Action InsightJob
register r lease max_attempts code summary = do
  row ← attempt (statement (register_attempt r.server lease max_attempts code summary))
  registered row

unfoldable pub failure_body :
    Repository → ProcessingLease → ℤ → Bytes → Bytes → Action FailureAction
failure_body r lease max_attempts code summary = do
  j ← register r lease max_attempts code summary
  announce r lease code summary j.status

-- RegisterFailure
unfoldable pub register_failure :
    Repository → ProcessingLease → ℤ → Bytes → Error → Action FailureAction
register_failure r lease max_attempts code failure =
    transaction "falha ao iniciar transacao para registrar erro do job de insight: "
      "falha ao confirmar erro do job de insight: "
      (failure_body r lease max_attempts code (summary_of failure))
