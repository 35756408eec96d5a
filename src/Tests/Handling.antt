-- ===== src/Tests/Handling.antt =====
-- A delivery that is decoded, processed and settled.
use mentor_ia_worker.Prelude.{◌≡◌, refl, ◌↔◌, true, false, leb_ℤ, ◌||◌, none, some, [], ◌∷◌, pos}
use mentor_ia_worker.Text.{
  Bytes, trim_space, trim_left, trim_right, strip, leading_space, trailing_space,
}
use mentor_ia_worker.Domain.{failed, parse_message, decoded, trimmed}
use mentor_ia_worker.Domain.Errors.{Error, ok, err, plain}
use mentor_ia_worker.Domain.Parsing.{IsTrimmed, parse_message-IsTrimmed}
use mentor_ia_worker.Postgres.Session.{World}
use mentor_ia_worker.Postgres.Begin.{acquired}
use mentor_ia_worker.Service.{Store, AiClient, Service, process}
use mentor_ia_worker.Worker.{Consumer, handle_delivery}
use mentor_ia_worker.Worker.Settling.{
  settlements, is_acknowledged, is_requeued, IsSafe, handle_delivery_settles_once,
  handle_delivery_acknowledged,
}
use mentor_ia_worker.Tests.Fixtures.{codec, message, running_job, world_with, lease, disciplines}

abbrev world : World
world = world_with running_job

abbrev body : Bytes
body = b'j' ∷ b'a' ∷ []

parsed : parse_message codec body ≡ ok message
unfolding parse_message decoded trimmed trim_space trim_left trim_right strip leading_space
    trailing_space
parsed = refl

parse_message-IsTrimmed_example : IsTrimmed message.job_id × IsTrimmed message.aluno_id
parse_message-IsTrimmed_example = parse_message-IsTrimmed codec body {m = message} parsed

-- The model does not answer, and the last attempt is used up.
abbrev unreachable : Error
unreachable = plain "connection refused"

abbrev store : Store
store = record {
  begins = λ m w. (ok (acquired lease), w);
  finds = λ a n w. (ok disciplines, w);
  saves = λ l c ds w. (ok tt, w);
  registers = λ l n c f w. (ok failed, w);
}

abbrev ai : AiClient
ai = record { complete = λ p w. (err unreachable, w) }

abbrev service : Service
service = record { store = some store; ai_client = some ai; max_attempts = pos 3; format = λ p. [] }

positive : leb_ℤ service.max_attempts (pos 0) ≡ false
positive = refl

abbrev consumer : Consumer
consumer = record { codec = codec; processor = process service; dead_letter_publisher = none }

handle_delivery_settles_once_example :
    (settlements (handle_delivery consumer body world).0 ≡ 1)
    × ((is_acknowledged (handle_delivery consumer body world).0
          || is_requeued (handle_delivery consumer body world).0)
        ≡ true)
handle_delivery_settles_once_example = handle_delivery_settles_once consumer body world

handle_delivery_acknowledged_example :
    (is_acknowledged (handle_delivery consumer body world).0 ≡ true) ↔ IsSafe consumer body world
handle_delivery_acknowledged_example = handle_delivery_acknowledged consumer body world
