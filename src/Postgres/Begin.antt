-- ===== src/Postgres/Begin.antt =====
-- internal/insights/postgres/repository.go: BeginProcessing and FindLowestPerformanceDisciplines.
pub mod Lease
pub mod Exclusive
pub mod Keeps
use mentor_ia_worker.Prelude.{
  ℕ, zero, suc, ◌+◌, ◌*◌, ◌/◌, min, max, String, Bool, true, false, ◌&&◌, Option, none, some, List,
  [], ◌∷◌, ◌++◌, map, ℤ, pos, negsuc, pos_part, leb_ℤ, ltb_ℤ, leb, ltb, ◌==◌, if◌then◌else◌, any,
  head?, length, select, take, sort_by, update_where,
}
use mentor_ia_worker.Text.{Bytes, bytes, trim_space, truncate}
use mentor_ia_worker.Domain.{
  Message, DisciplinePerformance, ProcessingLease, FailureAction, failed, retry, Codec, OutboxType,
  insight_failed, insight_retry_requested,
}
use mentor_ia_worker.Domain.Errors.{
  Error, Result, ok, err, plain, about, sentinel, wrap, lease_lost, no_rows, errors_is, error_text,
}
use mentor_ia_worker.Postgres.Tables.{
  Server, Database, Status, pendente, processando, aguardando_retentativa, falhou, concluido,
  InsightJob, OutboxRow, pending, InsightRow, LinkRow, insight_of,
}
use mentor_ia_worker.Postgres.Rows.{
  Repository, whole_seconds, has_ids, is_past, first_row, update_jobs, with_param,
}
use mentor_ia_worker.Postgres.Session.{
  World, Action, Statement, ◌>>=◌, ◌>>◌, pure, throw, require, of_result, draw, labelled, attempt,
  relabel, statement, transaction,
}

-- `COALESCE(t <= NOW(), true)`
abbrev pub is_past_or_null : ℕ → Option ℕ → Bool
is_past_or_null now none = true
is_past_or_null now (some t) = leb t now

-- The condition on the state of a job that may be taken.
abbrev pub is_free_in : ℕ → Status → Option ℕ → Option ℕ → Bool
is_free_in now pendente retry_at lease_end = true
is_free_in now aguardando_retentativa retry_at lease_end = is_past_or_null now retry_at
is_free_in now processando retry_at lease_end = is_past now lease_end
is_free_in now _ retry_at lease_end = false

abbrev pub is_free : ℕ → InsightJob → Bool
is_free now j = is_free_in now j.status j.proxima_tentativa_em j.lease_expira_em

abbrev pub claimed : ℕ → ℕ → ℕ → InsightJob → InsightJob
claimed now token seconds j = record j {
  status = processando;
  tentativas = suc j.tentativas;
  processing_token = some token;
  lease_expira_em = some (now + 1000 * seconds);
  proxima_tentativa_em = none;
  erro_codigo = none;
  erro_resumo = none;
  atualizado_em = now;
}

unfoldable pub claim_job : Server → Message → ℕ → ℕ → Statement InsightJob
unfolding update_jobs
claim_job server m token seconds = with_param (server.uuid_param m.job_id) λ i.
    with_param (server.uuid_param m.aluno_id)
      λ a w. update_jobs (λ j. has_ids i a j && is_free w.now j) (claimed w.now token seconds) w

pub job_exists : Server → Message → Statement Bool
job_exists server m = with_param (server.uuid_param m.job_id) λ i.
    with_param (server.uuid_param m.aluno_id)
      λ a w. (ok (any (has_ids i a) w.db.insight_jobs), w.db)

-- The two results of BeginProcessing that come without an error: a lease, or `alreadyHandled`.
pub data Begun : Type 0 where
  acquired : ProcessingLease → Begun
  already_handled : Begun

abbrev pub lease_of : Message → ℕ → InsightJob → ProcessingLease
lease_of m token j = record {
  message = m;
  token = token;
  created_at = j.criado_em;
  attempts = j.tentativas;
}

-- A job that could not be taken is handled by someone else, if there is such a job.
pub not_acquired : Server → Message → Action Begun
not_acquired server m = do
  exists ← labelled "falha ao verificar job nao adquirido: " (statement (job_exists server m))
  require exists (about "job de insight nao encontrado: " m.job_id)
  pure already_handled

unfoldable pub after_claim : Server → Message → ℕ → Result InsightJob → Action Begun
after_claim server m token (ok j) = pure (acquired (lease_of m token j))
after_claim server m token (err e) =
    if errors_is no_rows e
    then not_acquired server m
    else throw (wrap "falha ao adquirir job de insight: " e)

-- The claim under a fresh token.
unfoldable pub claim_with : Repository → Message → ℕ → Action Begun
claim_with r m token = do
  row ← attempt (statement (claim_job r.server m token (whole_seconds r.lease_duration)))
  after_claim r.server m token row

-- BeginProcessing
unfoldable pub begin_processing : Repository → Message → Action Begun
begin_processing r m = do
  require (ltb_ℤ (pos 0) r.lease_duration) (plain "leaseDuration deve ser maior que zero")
  token ← draw r.server
  require (ltb 0 (whole_seconds r.lease_duration))
      (plain "leaseDuration deve ter pelo menos um segundo")
  claim_with r m token

-- FindLowestPerformanceDisciplines
unfoldable pub find_lowest_performance_disciplines :
    Repository → Bytes → ℕ → Action (List DisciplinePerformance)
find_lowest_performance_disciplines r aluno_id limit = do
  aluno ← labelled "aluno_id invalido: " (of_result (r.server.parse_uuid aluno_id))
  labelled "falha ao buscar disciplinas de menor desempenho: "
      (statement λ w. (ok (r.server.lowest_performance aluno limit), w.db))
