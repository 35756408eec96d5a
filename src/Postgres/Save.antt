-- ===== src/Postgres/Save.antt =====
-- internal/insights/postgres/repository.go: SaveInsightResult.
pub mod Effect
pub mod Atomic
pub mod Keeps
use mentor_ia_worker.Prelude.{
  ℕ, Bool, ◌&&◌, Option, none, some, List, [], ◌∷◌, ◌++◌, ltb, ◌==◌, if◌then◌else◌, any, length,
  select, update_where,
}
use mentor_ia_worker.Text.{Bytes}
use mentor_ia_worker.Domain.{DisciplinePerformance, ProcessingLease}
use mentor_ia_worker.Domain.Errors.{ok, sentinel, lease_lost}
use mentor_ia_worker.Postgres.Tables.{
  Server, Database, Status, processando, concluido, InsightJob, InsightRow, LinkRow, insight_of,
}
use mentor_ia_worker.Postgres.Rows.{Repository, has_ids, with_param}
use mentor_ia_worker.Postgres.Session.{
  World, Action, Statement, ◌>>=◌, ◌>>◌, pure, require, draw, labelled, statement, transaction,
}

abbrev pub is_processing : Status → Bool
is_processing processando = Bool.true
is_processing _ = Bool.false

abbrev pub holds_token : ℕ → Option ℕ → Bool
holds_token token none = Bool.false
holds_token token (some t) = t == token

-- `WHERE id = $1 AND aluno_id = $2 AND status = 'processando' AND processing_token = $3`
abbrev pub is_leased : ℕ → ℕ → ℕ → InsightJob → Bool
is_leased i a token j =
    has_ids i a j && (is_processing j.status && holds_token token j.processing_token)

abbrev pub completed : ℕ → InsightJob → InsightJob
completed now j = record j {
  status = concluido;
  concluido_em = some now;
  atualizado_em = now;
  processing_token = none;
  lease_expira_em = none;
  proxima_tentativa_em = none;
  erro_codigo = none;
  erro_resumo = none;
}

-- The UPDATE of the job, with RowsAffected.
unfoldable pub complete_job : Server → ProcessingLease → Statement ℕ
complete_job server lease = with_param (server.uuid_param lease.message.job_id) λ i.
    with_param (server.uuid_param lease.message.aluno_id) λ a w. (
      ok (length (select (is_leased i a lease.token) w.db.insight_jobs)),
      record w.db {
        insight_jobs = update_where (is_leased i a lease.token) (completed w.now) w.db.insight_jobs;
      },
    )

-- `INSERT … ON CONFLICT (job_id) DO UPDATE SET conteudo = EXCLUDED.conteudo RETURNING id`
unfoldable pub upserted : InsightRow → Option InsightRow → List InsightRow → List InsightRow
upserted row none rows = rows ++ row ∷ []
upserted row (some old) rows =
    update_where (λ r. r.job_id == row.job_id) (λ r. record r { conteudo = row.conteudo }) rows

upserted_id : InsightRow → Option InsightRow → ℕ
upserted_id row none = row.id
upserted_id row (some old) = old.id

pub upsert_insight : Server → ProcessingLease → ℕ → Bytes → Statement ℕ
unfolding upserted upserted_id
upsert_insight server lease new_id content =
    with_param (server.uuid_param lease.message.aluno_id) λ a.
      with_param (server.uuid_param lease.message.job_id) λ i.
        with_param (server.text_param content) λ _ w.
          let row : InsightRow = record {
            id = new_id;
            aluno_id = a;
            job_id = i;
            conteudo = content;
          } in
          let old = insight_of i w.db.insights in
          (ok (upserted_id row old), record w.db { insights = upserted row old w.db.insights })

-- `DELETE FROM insights_disciplinas WHERE insight_id = $1`
pub clear_links : ℕ → Statement (Unit {0})
clear_links insight w = (
  ok tt,
  record w.db {
    insights_disciplinas =
        select (λ l. if l.insight_id == insight then Bool.false else Bool.true)
          w.db.insights_disciplinas;
  },
)

abbrev pub is_link : ℕ → ℕ → LinkRow → Bool
is_link insight disciplina l = l.insight_id == insight && l.disciplina_id == disciplina

-- `INSERT … ON CONFLICT (insight_id, disciplina_id) DO NOTHING`
abbrev pub with_link : ℕ → ℕ → ℕ → List LinkRow → List LinkRow
with_link new_id insight disciplina links =
    if any (is_link insight disciplina) links
    then links
    else links ++ record { id = new_id; insight_id = insight; disciplina_id = disciplina } ∷ []

insert_link : ℕ → ℕ → ℕ → Statement (Unit {0})
insert_link new_id insight disciplina w = (
  ok tt,
  record w.db {
    insights_disciplinas = with_link new_id insight disciplina w.db.insights_disciplinas;
  },
)

-- The loop over the disciplines.
pub link_all : Server → ℕ → List DisciplinePerformance → Action (Unit {0})
link_all server insight [] = pure tt
link_all server insight (d ∷ ds) =
    let rest = link_all server insight ds in
    do
      new_id ← draw server
      labelled "falha ao associar disciplina ao insight: "
          (statement (insert_link new_id insight d.id))
      rest

-- The DELETE and the loop.
pub save_links : Server → List DisciplinePerformance → ℕ → Action (Unit {0})
save_links server disciplines insight = do
  labelled "falha ao limpar disciplinas do insight: " (statement (clear_links insight))
  link_all server insight disciplines

-- The INSERT under a new uuid, and its links.
pub save_insight : Server → ProcessingLease → Bytes → List DisciplinePerformance → Action (Unit {0})
save_insight server lease content disciplines = do
  new_id ← draw server
  insight ←
      labelled "falha ao salvar insight: " (statement (upsert_insight server lease new_id content))
  save_links server disciplines insight

-- From the test of RowsAffected on.
pub save_content :
    Server → ProcessingLease → Bytes → List DisciplinePerformance → ℕ → Action (Unit {0})
save_content server lease content disciplines affected = do
  require (ltb 0 affected) (sentinel lease_lost)
  save_insight server lease content disciplines

unfoldable pub save_body :
    Server → ProcessingLease → Bytes → List DisciplinePerformance → Action (Unit {0})
save_body server lease content disciplines = do
  affected ← labelled "falha ao marcar job como concluido: " (statement (complete_job server lease))
  save_content server lease content disciplines affected

-- SaveInsightResult
unfoldable pub save_insight_result :
    Repository → ProcessingLease → Bytes → List DisciplinePerformance → Action (Unit {0})
save_insight_result r lease content disciplines =
    transaction "falha ao iniciar transacao para salvar insight: " "falha ao confirmar insight: "
      (save_body r.server lease content disciplines)
