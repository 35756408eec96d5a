-- ===== src/Worker.antt =====
-- internal/insights/worker/consumer.go: what the consumer does with one delivery.
pub mod Settling
pub mod Pool
use mentor_ia_worker.Prelude.{Bool, true, Option, none, some, List, [], ◌∷◌, if◌then◌else◌}
use mentor_ia_worker.Text.{Bytes}
use mentor_ia_worker.Domain.{Message, Codec, parse_message}
use mentor_ia_worker.Domain.Errors.{Error, Result, ok, err, job_failed, retry_scheduled, errors_is}
use mentor_ia_worker.Postgres.Session.{World, Action}

-- The operations on the broker, in the order in which they are called. What an Ack or a Nack
-- returns is only logged.
pub data Operation : Type 0 where
  publish_raw_to_dlq : Bytes → Operation
  ack : Operation
  nack : Bool → Operation

-- Consumer: the Processor, and the DeadLetterPublisher, which may be nil.
pub record Consumer : Type 0 where
  pub codec : Codec
  pub processor : Message → Action (Unit {0})
  pub dead_letter_publisher : Option (Bytes → Action (Unit {0}))

-- `amqp` requeues a delivery on Nack(false, true).
abbrev pub requeue : Operation
requeue = nack true

after_publish : Bytes → Result (Unit {0}) × World → List Operation × World
after_publish body (ok _, w) = (publish_raw_to_dlq body ∷ ack ∷ [], w)
after_publish body (err _, w) = (publish_raw_to_dlq body ∷ requeue ∷ [], w)

-- An invalid message.
reject : Option (Bytes → Action (Unit {0})) → Bytes → World → List Operation × World
unfolding after_publish
reject none body w = (requeue ∷ [], w)
reject (some publish) body w = after_publish body (publish body w)

-- The end of Process.
settle : Result (Unit {0}) → List Operation
settle (ok _) = ack ∷ []
settle (err e) =
    if errors_is job_failed e
    then ack ∷ []
    else if errors_is retry_scheduled e
    then ack ∷ []
    else requeue ∷ []

parsed : Consumer → Bytes → Result Message → World → List Operation × World
unfolding reject settle
parsed c body (err _) w = reject c.dead_letter_publisher body w
parsed c body (ok m) w = let (r, w') = c.processor m w in (settle r, w')

-- handleDelivery
pub handle_delivery : Consumer → Bytes → World → List Operation × World
unfolding parsed
handle_delivery c body w = parsed c body (parse_message c.codec body) w
