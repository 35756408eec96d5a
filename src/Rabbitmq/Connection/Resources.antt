-- ===== src/Rabbitmq/Connection/Resources.antt =====
-- What Connect and Close leave open.
use mentor_ia_worker.Prelude.{String, Bool, true, List, [], ◌∷◌, ◌≡◌, refl, ap, ◌∙◌, ℤ, ==_refl}
use mentor_ia_worker.Text.{Bytes}
use mentor_ia_worker.Domain.Errors.{Error, Result, ok, err}
use mentor_ia_worker.Rabbitmq.Library.{
  Handle, connection, channel, eq_handle, Broker, labelled, remove, close_handle, dial,
  open_channel, declare_queue, set_prefetch, check,
}
use mentor_ia_worker.Rabbitmq.Connection.Ends.{
  Ends, call-Ends, labelled-Ends, closing-Ends, closing_on_error-Ends, handle_of-Ends, after-Ends,
}
use mentor_ia_worker.Rabbitmq.Connection.{
  Config, Client, checked, closing, closing_on_error, declare_queues, declare_topology,
  open_consumer_channel, open_publisher_channel, with_publisher, prepared, connected, connect,
  consume, close,
}

-- The handles open after a call that works, and after one that fails.
abbrev pub Opened {ℓ} : {A : Type ℓ} → (A → List Handle) → A → Broker → Type 0
Opened good a b = b.live ≡ good a

abbrev pub Left : List Handle → Broker → Type 0
Left bad b = b.live ≡ bad

abbrev pub Leaves {ℓ} : {A : Type ℓ} → (A → List Handle) → List Handle → Result A × Broker → Type 0
Leaves good bad = Ends (Opened good) (Left bad)

eq_handle_refl : (h : Handle) → eq_handle h h ≡ true
eq_handle_refl connection = refl
eq_handle_refl (channel n) = ==_refl n

remove_first : (h : Handle) (hs : List Handle) → remove h (h ∷ hs) ≡ hs
remove_first h hs = rw (eq_handle_refl h) refl

close_handle_first :
    (h : Handle) (hs : List Handle) (b : Broker)
    → b.live ≡ h ∷ hs
    → ((close_handle h b).1).live ≡ hs
unfolding close_handle
close_handle_first h hs b e = ap (remove h) e ∙ remove_first h hs

module _ {ℓ} {A : Type ℓ} where
  closing-Leaves :
      (h : Handle) (hs : List Handle) (r : Result A × Broker)
      → Leaves (λ _. h ∷ hs) (h ∷ hs) r
      → Leaves (λ _. hs) hs (closing h r)
  closing-Leaves h hs r l =
      closing-Ends (Opened (λ _. h ∷ hs)) (Left (h ∷ hs)) (Opened (λ _. hs)) (Left hs) h
        (λ a b e. close_handle_first h hs b e) (close_handle_first h hs) r l

  closing_on_error-Leaves :
      (good : A → List Handle) (h : Handle) (hs : List Handle) (r : Result A × Broker)
      → Leaves good (h ∷ hs) r
      → Leaves good hs (closing_on_error h r)
  closing_on_error-Leaves good h hs r l =
      closing_on_error-Ends (Opened good) (Left (h ∷ hs)) (Left hs) h (close_handle_first h hs) r l

declare_queues-Leaves :
    (queue dlq : Bytes) (hs : List Handle) (b : Broker)
    → b.live ≡ hs
    → Leaves (λ _. hs) hs (declare_queues queue dlq b)
unfolding declare_queues declare_queue
declare_queues-Leaves queue dlq hs b e =
    after-Ends (Opened (λ _. hs)) (Opened (λ _. hs)) (Left hs) _ _
      (labelled-Ends (Opened (λ _. hs)) (Left hs) _ (declare_queue queue) b
        (call-Ends (Opened (λ _. hs)) (Left hs) tt _ b e e))
      λ _ c f.
        labelled-Ends (Opened (λ _. hs)) (Left hs) _ (declare_queue dlq) c
          (call-Ends (Opened (λ _. hs)) (Left hs) tt _ c f f)

opened-Leaves :
    (m : String) (hs : List Handle) (b : Broker)
    → b.live ≡ hs
    → Leaves (λ h. h ∷ hs) hs (labelled m open_channel b)
unfolding open_channel
opened-Leaves m hs b e = labelled-Ends (Opened (λ h. h ∷ hs)) (Left hs) m open_channel b (
    call-Ends (Opened (λ h. h ∷ hs)) (Left hs) (channel b.opened) _ b
      (ap (◌∷◌ (channel b.opened)) e) e)

declare_topology-Leaves :
    (queue dlq : Bytes) (hs : List Handle) (b : Broker)
    → b.live ≡ hs
    → Leaves (λ _. hs) hs (declare_topology queue dlq b)
unfolding declare_topology
declare_topology-Leaves queue dlq hs b e =
    after-Ends (Opened (λ h. h ∷ hs)) (Opened (λ _. hs)) (Left hs) _ _ (opened-Leaves _ hs b e)
      λ h c f. closing-Leaves h hs _ (declare_queues-Leaves queue dlq (h ∷ hs) c f)

open_consumer_channel-Leaves :
    (prefetch : ℤ) (hs : List Handle) (b : Broker)
    → b.live ≡ hs
    → Leaves (λ h. h ∷ hs) hs (open_consumer_channel prefetch b)
unfolding open_consumer_channel set_prefetch
open_consumer_channel-Leaves prefetch hs b e =
    after-Ends (Opened (λ h. h ∷ hs)) (Opened (λ h. h ∷ hs)) (Left hs) _ _ (opened-Leaves _ hs b e)
      λ h c f.
        handle_of-Ends (Opened (λ _. h ∷ hs)) (Left hs) (Opened (λ k. k ∷ hs)) h (λ a b e. e) _
          (closing_on_error-Leaves (λ _. h ∷ hs) h hs _
            (labelled-Ends (Opened (λ _. h ∷ hs)) (Left (h ∷ hs)) _ (set_prefetch prefetch) c
              (call-Ends (Opened (λ _. h ∷ hs)) (Left (h ∷ hs)) tt _ c f f)))

open_publisher_channel-Leaves :
    (hs : List Handle) (b : Broker)
    → b.live ≡ hs
    → Leaves (λ h. h ∷ hs) hs (open_publisher_channel b)
unfolding open_publisher_channel check
open_publisher_channel-Leaves hs b e =
    after-Ends (Opened (λ h. h ∷ hs)) (Opened (λ h. h ∷ hs)) (Left hs) _ _ (opened-Leaves _ hs b e)
      λ h c f.
        handle_of-Ends (Opened (λ _. h ∷ hs)) (Left hs) (Opened (λ k. k ∷ hs)) h (λ a b e. e) _
          (closing_on_error-Leaves (λ _. h ∷ hs) h hs _
            (labelled-Ends (Opened (λ _. h ∷ hs)) (Left (h ∷ hs)) _ check c
              (call-Ends (Opened (λ _. h ∷ hs)) (Left (h ∷ hs)) tt _ c f f)))

-- The handles of a client, the latest first.
abbrev pub handles : Client → List Handle
handles client = client.publisher_channel ∷ client.consumer_channel ∷ connection ∷ []

with_publisher-Leaves :
    (config : Config) (consumer : Handle) (b : Broker)
    → b.live ≡ consumer ∷ connection ∷ []
    → Leaves handles (connection ∷ []) (with_publisher config consumer b)
unfolding with_publisher
with_publisher-Leaves config consumer b e =
    after-Ends (Opened (λ h. h ∷ consumer ∷ connection ∷ [])) (Opened handles)
      (Left (connection ∷ [])) _ _
      (closing_on_error-Leaves (λ h. h ∷ consumer ∷ connection ∷ []) consumer (connection ∷ []) _
        (open_publisher_channel-Leaves (consumer ∷ connection ∷ []) b e))
      λ _ _ f. f

prepared-Leaves :
    (config : Config) (b : Broker)
    → b.live ≡ connection ∷ []
    → Leaves handles (connection ∷ []) (prepared config b)
unfolding prepared
prepared-Leaves config b e =
    after-Ends (Opened (λ _. connection ∷ [])) (Opened handles) (Left (connection ∷ [])) _ _
      (declare_topology-Leaves config.queue config.dlq (connection ∷ []) b e)
      λ _ c f.
        after-Ends (Opened (λ h. h ∷ connection ∷ [])) (Opened handles) (Left (connection ∷ [])) _ _
          (open_consumer_channel-Leaves config.prefetch (connection ∷ []) c f)
          (with_publisher-Leaves config)

connected-Leaves :
    (config : Result Config) (b : Broker) → b.live ≡ [] → Leaves handles [] (connected config b)
unfolding connected dial
connected-Leaves (err e) b f = f
connected-Leaves (ok config) b f =
    after-Ends (Opened (λ _. connection ∷ [])) (Opened handles) (Left []) _ _
      (labelled-Ends (Opened (λ _. connection ∷ [])) (Left []) _ (dial config.url) b
        (call-Ends (Opened (λ _. connection ∷ [])) (Left []) tt _ b (ap (◌∷◌ connection) f) f))
      λ _ c g. closing_on_error-Leaves handles connection [] _ (prepared-Leaves config c g)

-- Whichever of its calls fail, Connect started with nothing open leaves exactly the connection, the
-- channel of the consumer and that of the publisher open when it returns a client, and has closed
-- all it opened when it returns an error.
pub connect-Leaves :
    (given : Config) (b : Broker) → b.live ≡ [] → Leaves handles [] (connect given b)
unfolding connect
connect-Leaves given b e = connected-Leaves (checked given) b e

pub consume-Leaves :
    (client : Client) (hs : List Handle) (b : Broker)
    → b.live ≡ hs
    → Leaves (λ _. hs) hs (consume client b)
unfolding consume check
consume-Leaves client hs b e =
    labelled-Ends (Opened (λ _. hs)) (Left hs) _ check b
      (call-Ends (Opened (λ _. hs)) (Left hs) tt _ b e e)

-- Close of a client closes the channel of the publisher, that of the consumer and the connection,
-- also when some of these calls return an error.
pub close_all :
    (is_closed : Error → Bool) (client : Client) (b : Broker)
    → b.live ≡ handles client
    → ((close is_closed client b).1).live ≡ []
unfolding close
close_all is_closed client b e = close_handle_first connection [] _ (
    close_handle_first client.consumer_channel (connection ∷ []) _
      (close_handle_first client.publisher_channel (client.consumer_channel ∷ connection ∷ []) b e))
