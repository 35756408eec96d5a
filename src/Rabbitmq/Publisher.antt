-- ===== src/Rabbitmq/Publisher.antt =====
-- internal/platform/rabbitmq/publisher.go: publishing with confirms and returns.
pub mod Confirms
use mentor_ia_worker.Prelude.{
  ℕ, String, Bool, true, false, Option, none, some, List, [], ◌∷◌, ◌++◌, if◌then◌else◌,
}
use mentor_ia_worker.Text.{Bytes, bytes, decimal}
use mentor_ia_worker.Rabbitmq.Connection.{Client}
use mentor_ia_worker.Domain.Errors.{Error, Result, ok, err, plain, about, wrap}

-- amqp.Confirmation
pub record Confirmation : Type 0 where
  pub delivery_tag : ℕ
  pub ack : Bool

-- What of amqp.Return the code reads.
pub record Return : Type 0 where
  pub reply_code : ℕ
  pub reply_text : Bytes

-- amqp.Publishing
pub record Publishing : Type 0 where
  pub content_type : String
  pub delivery_mode : ℕ
  pub timestamp : ℕ
  pub body : Bytes

-- The channel of the publisher: what was sent to which routing key, the latest first (each
-- `mandatory`, to the default exchange), and what its two channels of notices hold, the first to be
-- read first, and whether they are closed behind that.
pub record Wire : Type 0 where
  pub sent : List (Bytes × Publishing)
  pub confirms : List Confirmation
  pub confirms_closed : Bool
  pub returns : List Return
  pub returns_closed : Bool

-- The cases of a `select`.
pub data Case : Type 0 where
  on_return on_confirmation on_done : Case

-- What happens during one publication: the error of PublishWithContext, the notices that come in,
-- the error of the context if it ends, and the case that the `select` takes.
pub record Meanwhile : Type 0 where
  pub send : Option Error
  pub confirms : List Confirmation
  pub returns : List Return
  pub ended : Option Error
  pub taken : Case

-- `fmt.Errorf("mensagem nao roteavel no RabbitMQ: codigo=%d texto=%s", …)`
pub unroutable : Return → Error
unroutable r =
    about "mensagem nao roteavel no RabbitMQ: codigo="
      (decimal r.reply_code ++ (bytes " texto=" ++ r.reply_text))

-- The `select` after a positive confirmation: a closed channel yields the zero Return.
unfoldable pub returned_too : List Return → Bool → Wire → Result (Unit {0}) × Wire
unfolding unroutable
returned_too (r ∷ rest) closed n = (err (unroutable r), record n { returns = rest })
returned_too [] true n = (err (unroutable (record { reply_code = 0; reply_text = bytes "" })), n)
returned_too [] false n = (ok tt, n)

on_returns : List Return → Bool → Wire → Option (Result (Unit {0}) × Wire)
unfolding unroutable
on_returns (r ∷ rest) closed n = some (err (unroutable r), record n { returns = rest })
on_returns [] true n = some (err (plain "canal de retorno do RabbitMQ fechado"), n)
on_returns [] false n = none

unfoldable pub confirmed : Confirmation → Wire → Result (Unit {0}) × Wire
unfolding returned_too
confirmed c n =
    if c.ack
    then returned_too n.returns n.returns_closed n
    else (err (plain "RabbitMQ rejeitou publicacao"), n)

unfoldable pub on_confirms : List Confirmation → Bool → Wire → Option (Result (Unit {0}) × Wire)
unfolding confirmed
on_confirms (c ∷ rest) closed n = some (confirmed c (record n { confirms = rest }))
on_confirms [] true n = some (err (plain "canal de confirmacao do RabbitMQ fechado"), n)
on_confirms [] false n = none

on_context : Option Error → Wire → Option (Result (Unit {0}) × Wire)
on_context (some e) n =
    some (err (wrap "contexto cancelado aguardando confirmacao do RabbitMQ: " e), n)
on_context none n = none

-- waitForPublish, when the `select` takes the given case: none if that case is not ready.
unfoldable pub wait_for_publish : Option Error → Case → Wire → Option (Result (Unit {0}) × Wire)
unfolding on_returns on_confirms on_context
wait_for_publish ended on_return n = on_returns n.returns n.returns_closed n
wait_for_publish ended on_confirmation n = on_confirms n.confirms n.confirms_closed n
wait_for_publish ended on_done n = on_context ended n

-- The notices that come in.
abbrev pub arriving : Meanwhile → Wire → Wire
arriving m n = record n { confirms = n.confirms ++ m.confirms; returns = n.returns ++ m.returns }

abbrev pub sending : Bytes → Publishing → Wire → Wire
sending routing_key publishing n = record n { sent = (routing_key, publishing) ∷ n.sent }

unfoldable pub sent_or_failed :
    Option Error → Bytes → Publishing → Meanwhile → Wire → Option (Result (Unit {0}) × Wire)
unfolding wait_for_publish
sent_or_failed (some e) routing_key publishing m n =
    some (err (wrap "falha ao publicar mensagem no RabbitMQ: " e), arriving m n)
sent_or_failed none routing_key publishing m n =
    wait_for_publish m.ended m.taken (arriving m (sending routing_key publishing n))

-- publish; the mutex makes one publication follow another.
unfoldable pub publish : Bytes → Publishing → Meanwhile → Wire → Option (Result (Unit {0}) × Wire)
unfolding sent_or_failed
publish routing_key publishing m n = sent_or_failed m.send routing_key publishing m n

-- `amqp.Persistent`
abbrev persistent : ℕ
persistent = 2

-- `amqp.Publishing{…}` of a body at a time
abbrev publishing_of : String → ℕ → Bytes → Publishing
publishing_of content_type now body = record {
  content_type = content_type;
  delivery_mode = persistent;
  timestamp = now;
  body = body;
}

marshalled : Result Bytes → Bytes → ℕ → Meanwhile → Wire → Option (Result (Unit {0}) × Wire)
marshalled (err e) routing_key now m n =
    some (err (wrap "falha ao serializar mensagem RabbitMQ: " e), n)
marshalled (ok body) routing_key now m n =
    publish routing_key (publishing_of "application/json" now body) m n

-- publishJSON, given what json.Marshal makes of the payload
pub publish_json : Bytes → Result Bytes → ℕ → Meanwhile → Wire → Option (Result (Unit {0}) × Wire)
unfolding marshalled
publish_json routing_key payload now m n = marshalled payload routing_key now m n

-- PublishInsightMessage, PublishToDLQ
pub publish_insight_message :
    Client → Result Bytes → ℕ → Meanwhile → Wire → Option (Result (Unit {0}) × Wire)
publish_insight_message c payload now m n = publish_json c.queue payload now m n

pub publish_to_dlq :
    Client → Result Bytes → ℕ → Meanwhile → Wire → Option (Result (Unit {0}) × Wire)
publish_to_dlq c payload now m n = publish_json c.dlq payload now m n

-- PublishRawToDLQ
pub publish_raw_to_dlq : Client → Bytes → ℕ → Meanwhile → Wire → Option (Result (Unit {0}) × Wire)
publish_raw_to_dlq c body now m n =
    publish c.dlq (publishing_of "application/octet-stream" now body) m n
