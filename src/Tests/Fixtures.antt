-- ===== src/Tests/Fixtures.antt =====
-- A server, a repository and tables for the runs at concrete inputs.
use mentor_ia_worker.Prelude.{ℕ, refl, false, none, some, List, [], ◌∷◌, ◌++◌, pos}
use mentor_ia_worker.Text.{Bytes}
use mentor_ia_worker.Domain.{Message, ProcessingLease, DisciplinePerformance, Codec}
use mentor_ia_worker.Domain.Errors.{Result, ok, err, plain}
use mentor_ia_worker.Postgres.Tables.{Server, InsightJob, Status}
use mentor_ia_worker.Postgres.Rows.{Repository}
use mentor_ia_worker.Postgres.Session.{World}

-- A uuid is written as one byte.
abbrev pub read_byte : Bytes → Result ℕ
read_byte (x ∷ []) = ok x
read_byte _ = err (plain "invalid input syntax for type uuid")

abbrev math_row : DisciplinePerformance
math_row = record { id = 4; nome = b'M' ∷ []; percentual = 40 }

abbrev pub disciplines : List DisciplinePerformance
disciplines = math_row ∷ []

abbrev pub server : Server
server = record {
  uuid_param = read_byte;
  parse_uuid = read_byte;
  uuid_text = λ n. n ∷ [];
  uuid_param-text = λ n. refl;
  text_param = λ text. ok tt;
  jsonb_param = λ text. ok text;
  new_uuid = λ n. n;
  new_uuid-injective = λ m n h. h;
  lowest_performance = λ a n. disciplines;
}

-- A message is written as its two bytes.
abbrev pub read_message : Bytes → Result Message
read_message (x ∷ y ∷ []) = ok (record { job_id = x ∷ []; aluno_id = y ∷ [] })
read_message _ = err (plain "unexpected end of JSON input")

abbrev pub codec : Codec
codec = record {
  marshal_message = λ m. m.job_id ++ m.aluno_id;
  marshal_failure = λ f. f.job_id;
  unmarshal_message = read_message;
  unmarshal_failure = λ text. err (plain "unexpected end of JSON input");
}

abbrev pub repository : Repository
repository = record { server = server; codec = codec; lease_duration = pos 120000000000 }

abbrev pub message : Message
message = record { job_id = b'j' ∷ []; aluno_id = b'a' ∷ [] }

abbrev pub pending_job : InsightJob
pending_job = record {
  id = b'j';
  aluno_id = b'a';
  status = Status.pendente;
  tentativas = 0;
  processing_token = none;
  lease_expira_em = none;
  proxima_tentativa_em = none;
  erro_codigo = none;
  erro_resumo = none;
  criado_em = 1000;
  atualizado_em = 1000;
  concluido_em = none;
}

-- The job under the lease of token 7, which ends at instant 9000.
abbrev pub running_job : InsightJob
running_job = record pending_job {
  status = Status.processando;
  tentativas = 1;
  processing_token = some 7;
  lease_expira_em = some 9000;
}

abbrev pub world_with : InsightJob → World
world_with j = record {
  db = record {
    insight_jobs = j ∷ [];
    outbox_eventos = [];
    insights = [];
    insights_disciplinas = [];
  };
  now = 5000;
  drawn = 8;
  locked = λ i. false;
  calls = [];
}

abbrev pub lease : ProcessingLease
lease = record { message = message; token = 7; created_at = 1000; attempts = 1 }

abbrev pub stale_lease : ProcessingLease
stale_lease = record { message = message; token = 6; created_at = 1000; attempts = 1 }
