-- ===== src/Domain.antt =====
-- internal/insights/domain/model.go and message.go: the types that the parts of the worker share,
-- and the decoder of a queue message.
pub mod Errors
pub mod Parsing
use mentor_ia_worker.Prelude.{ℕ, String, ◌≡◌, Bool, true, Option, some, if◌then◌else◌}
use mentor_ia_worker.Text.{Bytes, bytes, is_empty, trim_space}
use Errors.{Error, plain, wrap, Result, ok, err}

pub record Message : Type 0 where
  pub job_id : Bytes
  pub aluno_id : Bytes

-- `percentual` is a float64, kept as its bit pattern: the worker only prints it.
pub record DisciplinePerformance : Type 0 where
  pub id : ℕ
  pub nome : Bytes
  pub percentual : ℕ

-- A token is a uuid, as the number that its text stands for. Instants are in milliseconds.
pub record ProcessingLease : Type 0 where
  pub message : Message
  pub token : ℕ
  pub created_at : ℕ
  pub attempts : ℕ

pub data FailureAction : Type 0 where
  failed retry : FailureAction

pub record InsightFailedEvent : Type 0 where
  pub job_id : Bytes
  pub aluno_id : Bytes
  pub error_code : Bytes
  pub error_summary : Bytes

-- The text of an event's type, or one that the worker does not know.
pub data OutboxType : Type 0 where
  insight_failed insight_requested insight_retry_requested : OutboxType
  unknown_type : Bytes → OutboxType

pub record OutboxEvent : Type 0 where
  pub id : ℕ
  pub type : OutboxType
  pub payload : Bytes
  pub processing_token : ℕ
  pub attempts : ℕ

-- encoding/json at the two types that go through the queue.
pub record Codec : Type 0 where
  pub marshal_message : Message → Bytes
  pub marshal_failure : InsightFailedEvent → Bytes
  pub unmarshal_message : Bytes → Result Message
  pub unmarshal_failure : Bytes → Result InsightFailedEvent

unfoldable pub trimmed : Message → Result Message
trimmed message =
    let job_id = trim_space message.job_id in
    let aluno_id = trim_space message.aluno_id in
    if is_empty job_id
    then err (plain "mensagem de insight sem job_id")
    else if is_empty aluno_id
    then err (plain "mensagem de insight sem aluno_id")
    else ok (record { job_id = job_id; aluno_id = aluno_id })

unfoldable pub decoded : Result Message → Result Message
unfolding trimmed
decoded (err e) = err (wrap "mensagem de insight nao esta em JSON valido: " e)
decoded (ok message) = trimmed message

unfoldable pub parse_message : Codec → Bytes → Result Message
unfolding decoded
parse_message codec body = decoded (codec.unmarshal_message body)
