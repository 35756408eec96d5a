-- ===== src/Tests/Broker.antt =====
-- Connections, publications and runs of the whole worker.
use mentor_ia_worker.Prelude.{◌≡◌, refl, true, false, none, some, [], ◌∷◌, pos}
use mentor_ia_worker.Domain.Errors.{ok, err, plain}
use mentor_ia_worker.Rabbitmq.Library.{
  connection, channel, Broker, close_handle, dial, open_channel, declare_queue, set_prefetch, check,
}
use mentor_ia_worker.Rabbitmq.Connection.{
  Config, Client, usable, checked, declare_queues, declare_topology, open_consumer_channel,
  open_publisher_channel, with_publisher, prepared, connected, connect,
}
use mentor_ia_worker.Rabbitmq.Connection.Resources.{Leaves, handles, connect-Leaves}
use mentor_ia_worker.Rabbitmq.Connection.Declared.{IsReady, connect-IsReady}
use mentor_ia_worker.Rabbitmq.Publisher.{
  Confirmation, Return, Publishing, Wire, on_confirmation, Meanwhile, confirmed, on_confirms,
  returned_too, wait_for_publish, sent_or_failed, publish, unroutable,
}
use mentor_ia_worker.Rabbitmq.Publisher.Confirms.{
  refused, unanswered, publish-confirmed, publish-unanswered,
}

abbrev config : Config
config = record {
  url = b'u' ∷ [];
  queue = b'q' ∷ [];
  dlq = b'd' ∷ [];
  queue_name = [];
  prefetch = pos 0;
  publish_timeout = pos 0;
}

-- The calls that fail: none.
abbrev broker : Broker
broker = record { opened = 0; live = []; queues = []; prefetch = []; errors = [] }

-- The confirm mode of the publisher's channel fails.
abbrev failing : Broker
failing = record broker {
  errors = none ∷ none ∷ none ∷ none ∷ none ∷ none ∷ none ∷ none ∷ some (plain "timeout") ∷ [];
}

abbrev client : Client
client = record {
  consumer_channel = channel 1;
  publisher_channel = channel 2;
  queue = b'q' ∷ [];
  dlq = b'd' ∷ [];
  prefetch = pos 1;
  publish_timeout = pos 5000000000;
}

abbrev ready : Broker
ready = record broker {
  opened = 3;
  live = channel 2 ∷ channel 1 ∷ connection ∷ [];
  queues = (b'd' ∷ []) ∷ (b'q' ∷ []) ∷ [];
  prefetch = pos 1 ∷ [];
}

connects : connect config broker ≡ (ok client, ready)
unfolding connect connected prepared with_publisher open_publisher_channel open_consumer_channel
    declare_topology declare_queues checked usable close_handle dial open_channel declare_queue
    set_prefetch check
connects = refl

connect-Leaves_example : Leaves handles [] (connect config failing)
connect-Leaves_example = connect-Leaves config failing refl

connect-IsReady_example : IsReady broker client ready
connect-IsReady_example = connect-IsReady config client broker ready connects

abbrev publishing : Publishing
publishing = record {
  content_type = "application/json";
  delivery_mode = 2;
  timestamp = 0;
  body = b'x' ∷ [];
}

abbrev wire : Wire
wire = record {
  sent = [];
  confirms = [];
  confirms_closed = false;
  returns = [];
  returns_closed = false;
}

abbrev confirmation : Confirmation
confirmation = record { delivery_tag = 1; ack = true }

abbrev returned : Return
returned = record { reply_code = 312; reply_text = b'N' ∷ [] }

abbrev acknowledged : Meanwhile
acknowledged = record {
  send = none;
  confirms = confirmation ∷ [];
  returns = [];
  ended = none;
  taken = on_confirmation;
}

abbrev sent : Wire
sent = record wire { sent = (b'q' ∷ [], publishing) ∷ [] }

published : publish (b'q' ∷ []) publishing acknowledged wire ≡ some (ok tt, sent)
unfolding publish sent_or_failed wait_for_publish on_confirms confirmed returned_too
published = refl

publish-confirmed_example :
    (acknowledged.send ≡ none)
    × (sent.sent ≡ (b'q' ∷ [], publishing) ∷ wire.sent)
    × (acknowledged.returns ≡ [])
    × ((c : Confirmation) × (acknowledged.confirms ≡ c ∷ []) × (c.ack ≡ true))
publish-confirmed_example =
    publish-confirmed (b'q' ∷ []) publishing acknowledged wire sent refl refl published

publish-unanswered_example :
    (w w' : Wire) × (publish (b'q' ∷ []) publishing (refused returned confirmation) wire
      ≡ some (err (unroutable returned), w))
    × (publish (b'd' ∷ []) publishing unanswered w ≡ some (ok tt, w'))
publish-unanswered_example =
    publish-unanswered (b'q' ∷ []) (b'd' ∷ []) publishing publishing returned confirmation wire refl
      refl refl refl
