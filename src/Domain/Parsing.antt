-- ===== src/Domain/Parsing.antt =====
-- What a decoded message is.
use mathlib.Core.List.{reverse}
use mentor_ia_worker.Prelude.{◌<◌, ◌≡◌, arith, length}
use mentor_ia_worker.Text.{Bytes, leading_space, trailing_space, trim_space}
use mentor_ia_worker.Text.Trim.{trim_space_ends}
use mentor_ia_worker.Domain.{Message, Codec, trimmed, decoded, parse_message}
use mentor_ia_worker.Domain.Errors.{Result, ok, err}

-- A text that strings.TrimSpace leaves alone, and that is not empty.
pub record IsTrimmed (s : Bytes) : Type 0 where
  pub nonempty : 0 < length s
  pub front : leading_space s ≡ 0
  pub back : trailing_space (reverse s) ≡ 0

trim_space-IsTrimmed : (s : Bytes) → 0 < length (trim_space s) → IsTrimmed (trim_space s)
trim_space-IsTrimmed s h = record {
  nonempty = h;
  front = (trim_space_ends s).0;
  back = (trim_space_ends s).1;
}

trimmed-IsTrimmed :
    (raw : Message) {m : Message} → trimmed raw ≡ ok m → IsTrimmed m.job_id × IsTrimmed m.aluno_id
unfolding trimmed
trimmed-IsTrimmed raw h =
    ground (arith, trim_space-IsTrimmed raw.job_id, trim_space-IsTrimmed raw.aluno_id)

decoded-IsTrimmed :
    (r : Result Message) {m : Message}
    → decoded r ≡ ok m
    → IsTrimmed m.job_id × IsTrimmed m.aluno_id
unfolding decoded
decoded-IsTrimmed (ok raw) h = trimmed-IsTrimmed raw h
decoded-IsTrimmed (err e) h = cc

-- A decoded message has both identifiers, neither of them empty, and each without a space at
-- either end.
pub parse_message-IsTrimmed :
    (codec : Codec) (body : Bytes) {m : Message}
    → parse_message codec body ≡ ok m
    → IsTrimmed m.job_id × IsTrimmed m.aluno_id
unfolding parse_message
parse_message-IsTrimmed codec body h = decoded-IsTrimmed (codec.unmarshal_message body) h
