-- ===== src/Rabbitmq/Connection.antt =====
-- internal/platform/rabbitmq/connection.go, topology.go, consumer.go, and the opening of the
-- publisher's channel in publisher.go.
pub mod Ends
pub mod Resources
pub mod Usable
pub mod Declared
use mentor_ia_worker.Prelude.{
  ℕ, String, Bool, true, false, not, Option, none, some, List, [], ◌∷◌, ◌++◌, ℤ, pos, negsuc,
  if◌then◌else◌,
}
use mentor_ia_worker.Text.{Bytes, is_empty}
use mentor_ia_worker.Domain.Errors.{Error, Result, ok, err, plain, wrap}
use mentor_ia_worker.Rabbitmq.Library.{
  Handle, connection, channel, Broker, Call, relabel, labelled, close_handle, dial, open_channel,
  declare_queue, set_prefetch, check,
}

-- Config; the timeout is in nanoseconds.
pub record Config : Type 0 where
  pub url : Bytes
  pub queue : Bytes
  pub dlq : Bytes
  pub queue_name : Bytes
  pub prefetch : ℤ
  pub publish_timeout : ℤ

-- Client, as far as it is set when Connect returns; a queue is given by its name. The channels of
-- notices are with the publisher.
pub record Client : Type 0 where
  pub consumer_channel : Handle
  pub publisher_channel : Handle
  pub queue : Bytes
  pub dlq : Bytes
  pub prefetch : ℤ
  pub publish_timeout : ℤ

abbrev is_zero : ℤ → Bool
is_zero (pos ℕ.zero) = true
is_zero _ = false

abbrev is_negative : ℤ → Bool
is_negative (pos _) = false
is_negative (negsuc _) = true

-- The defaults of Connect: QueueName for the queue, defaultPrefetchCount, defaultPublishTimeout.
abbrev with_defaults : Config → Config
with_defaults given = record given {
  queue = if is_empty given.queue then given.queue_name else given.queue;
  prefetch = if is_zero given.prefetch then pos 1 else given.prefetch;
  publish_timeout = if is_zero given.publish_timeout then pos 5000000000 else given.publish_timeout;
}

-- The conditions at the beginning of Connect.
unfoldable pub usable : Config → Result Config
usable config =
    if is_empty config.url
    then err (plain "RABBITMQ_URL nao pode estar vazio")
    else if is_empty config.queue
    then err (plain "RABBITMQ_INSIGHTS_QUEUE nao pode estar vazio")
    else if is_empty config.dlq
    then err (plain "RABBITMQ_INSIGHTS_DLQ nao pode estar vazio")
    else if is_negative config.prefetch
    then err (plain "RABBITMQ_PREFETCH deve ser maior que zero")
    else if is_negative config.publish_timeout
    then err (plain "RABBITMQ_PUBLISH_TIMEOUT_MS deve ser maior que zero")
    else ok config

unfoldable pub checked : Config → Result Config
unfolding usable
checked given = usable (with_defaults given)

-- `_ = handle.Close()`
abbrev closing {ℓ} : {A : Type ℓ} → Handle → Result A × Broker → Result A × Broker
closing h (r, b) = (r, (close_handle h b).1)

-- `if err != nil { _ = handle.Close(); return err }`
abbrev closing_on_error {ℓ} : {A : Type ℓ} → Handle → Result A × Broker → Result A × Broker
closing_on_error h (ok a, b) = (ok a, b)
closing_on_error h (err e, b) = (err e, (close_handle h b).1)

abbrev after {ℓ κ} :
    {A : Type ℓ} {B : Type κ} → Result A × Broker → (A → Call B) → Result B × Broker
after (ok a, b) next = next a b
after (err e, b) next = (err e, b)

unfoldable pub declare_queues : Bytes → Bytes → Call (Unit {0})
declare_queues queue dlq b =
    after (labelled "falha ao declarar fila do RabbitMQ: " (declare_queue queue) b)
      λ _. labelled "falha ao declarar DLQ do RabbitMQ: " (declare_queue dlq)

-- declareTopology, whose channel is closed by `defer`
unfoldable pub declare_topology : Bytes → Bytes → Call (Unit {0})
unfolding declare_queues
declare_topology queue dlq b =
    after (labelled "falha ao abrir canal de topologia do RabbitMQ: " open_channel b)
      λ h c. closing h (declare_queues queue dlq c)

abbrev handle_of {ℓ} : {A : Type ℓ} → Handle → Result A × Broker → Result Handle × Broker
handle_of h (ok _, b) = (ok h, b)
handle_of h (err e, b) = (err e, b)

-- openConsumerChannel
unfoldable pub open_consumer_channel : ℤ → Call Handle
open_consumer_channel prefetch b =
    after (labelled "falha ao abrir canal de consumo do RabbitMQ: " open_channel b) λ h c.
      handle_of h (
        closing_on_error h
          (labelled "falha ao configurar prefetch do RabbitMQ: " (set_prefetch prefetch) c))

-- openPublisherChannel
unfoldable pub open_publisher_channel : Call Handle
open_publisher_channel b =
    after (labelled "falha ao abrir canal de publicacao do RabbitMQ: " open_channel b) λ h c.
      handle_of h (
        closing_on_error h (labelled "falha ao habilitar publisher confirms do RabbitMQ: " check c))

-- The channel of the publisher; if it fails, the channel of the consumer is closed.
unfoldable pub with_publisher : Config → Handle → Call Client
unfolding open_publisher_channel
with_publisher config consumer b =
    after (closing_on_error consumer (open_publisher_channel b)) λ publisher c. (
      ok (record {
        consumer_channel = consumer;
        publisher_channel = publisher;
        queue = config.queue;
        dlq = config.dlq;
        prefetch = config.prefetch;
        publish_timeout = config.publish_timeout;
      }),
      c,
    )

-- What is done on the connection.
unfoldable pub prepared : Config → Call Client
unfolding declare_topology open_consumer_channel with_publisher
prepared config b =
    after (declare_topology config.queue config.dlq b)
      λ _ c. after (open_consumer_channel config.prefetch c) (with_publisher config)

unfoldable pub connected : Result Config → Call Client
unfolding prepared
connected (err e) b = (err e, b)
connected (ok config) b =
    after (labelled "falha ao conectar no RabbitMQ: " (dial config.url) b)
      λ _ c. closing_on_error connection (prepared config c)

-- Connect
unfoldable pub connect : Config → Call Client
unfolding connected checked
connect given = connected (checked given)

-- Consume
unfoldable pub consume : Client → Call (Unit {0})
consume client = labelled "falha ao iniciar consumo da fila RabbitMQ: " check

-- The error of a Close that is reported; amqp.ErrClosed is not.
abbrev reported : (Error → Bool) → Option Error → List Error
reported is_closed none = []
reported is_closed (some e) = if is_closed e then [] else e ∷ []

-- Close, of a client that Connect returned: the errors that errors.Join puts together, none of them
-- standing for nil. `is_closed` is errors.Is for amqp.ErrClosed.
unfoldable pub close : (Error → Bool) → Client → Broker → List Error × Broker
close is_closed client b =
    let (first, c) = close_handle client.publisher_channel b in
    let (second, d) = close_handle client.consumer_channel c in
    let (third, e) = close_handle connection d in
    (reported is_closed first ++ (reported is_closed second ++ reported is_closed third), e)
