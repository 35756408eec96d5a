-- ===== src/Postgres/Tables.antt =====
-- The rows of the four tables that repository.go writes, with the columns that its statements
-- name, and the behaviour of PostgreSQL and its driver that the statements rely on.
use mentor_ia_worker.Prelude.{ℕ, ◌≡◌, Option, List, head?, select, ◌==◌}
use mentor_ia_worker.Text.{Bytes}
use mentor_ia_worker.Domain.{DisciplinePerformance, OutboxType}
use mentor_ia_worker.Domain.Errors.{Result, ok}

-- "InsightJobStatus"
pub data Status : Type 0 where
  pendente processando aguardando_retentativa falhou concluido : Status

pub record InsightJob : Type 0 where
  pub id : ℕ
  pub aluno_id : ℕ
  pub status : Status
  pub tentativas : ℕ
  pub processing_token : Option ℕ
  pub lease_expira_em : Option ℕ
  pub proxima_tentativa_em : Option ℕ
  pub erro_codigo : Option Bytes
  pub erro_resumo : Option Bytes
  pub criado_em : ℕ
  pub atualizado_em : ℕ
  pub concluido_em : Option ℕ

-- `outbox_eventos.status`
pub data EventStatus : Type 0 where
  pending processing published failed : EventStatus

pub record OutboxRow : Type 0 where
  pub id : ℕ
  pub job_id : ℕ
  pub tipo : OutboxType
  pub payload : Bytes
  pub status : EventStatus
  pub tentativas : ℕ
  pub erro_resumo : Option Bytes
  pub proxima_tentativa_em : ℕ
  pub processing_token : Option ℕ
  pub lock_expira_em : Option ℕ
  pub criado_em : ℕ
  pub publicado_em : Option ℕ

pub record InsightRow : Type 0 where
  pub id : ℕ
  pub aluno_id : ℕ
  pub job_id : ℕ
  pub conteudo : Bytes

pub record LinkRow : Type 0 where
  pub id : ℕ
  pub insight_id : ℕ
  pub disciplina_id : ℕ

pub record Database : Type 0 where
  pub insight_jobs : List InsightJob
  pub outbox_eventos : List OutboxRow
  pub insights : List InsightRow
  pub insights_disciplinas : List LinkRow

-- What the statements rely on: a uuid column is given as text, and an ill-formed text is an error;
-- `::text` prints a uuid that reads back; a text parameter must be valid UTF-8 with no zero byte;
-- a jsonb column normalises its text; uuid.NewString never repeats (`new_uuid n` is the n-th).
-- `parse_uuid` is uuid.Parse of github.com/google/uuid.
-- `lowest_performance` stands for the query that sqlc generates from queries/disciplines.sql.
pub record Server : Type 0 where
  pub uuid_param : Bytes → Result ℕ
  pub parse_uuid : Bytes → Result ℕ
  pub uuid_text : ℕ → Bytes
  pub uuid_param-text : (n : ℕ) → uuid_param (uuid_text n) ≡ ok n
  pub text_param : Bytes → Result (Unit {0})
  pub jsonb_param : Bytes → Result Bytes
  pub new_uuid : ℕ → ℕ
  pub new_uuid-injective : (m n : ℕ) → new_uuid m ≡ new_uuid n → m ≡ n
  pub lowest_performance : ℕ → ℕ → List DisciplinePerformance

-- Lookup by primary key.
abbrev pub job_at : ℕ → List InsightJob → Option InsightJob
job_at i rows = head? (select (λ j. j.id == i) rows)

abbrev pub event_at : ℕ → List OutboxRow → Option OutboxRow
event_at i rows = head? (select (λ r. r.id == i) rows)

abbrev pub insight_of : ℕ → List InsightRow → Option InsightRow
insight_of job rows = head? (select (λ r. r.job_id == job) rows)
