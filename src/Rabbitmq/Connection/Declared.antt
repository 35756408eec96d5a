-- ===== src/Rabbitmq/Connection/Declared.antt =====
-- What a Connect that works has set up on the broker.
use mentor_ia_worker.Prelude.{
  String, false, List, ◌∷◌, ◌≡◌, refl, ap, sym, subst, ◌∙◌, ℤ, pos, leb_ℤ,
}
use mentor_ia_worker.Text.{Bytes, is_empty}
use mentor_ia_worker.Domain.Errors.{Result, ok, err}
use mentor_ia_worker.Rabbitmq.Library.{
  Handle, connection, Broker, labelled, close_handle, dial, open_channel, declare_queue,
  set_prefetch, check,
}
use mentor_ia_worker.Rabbitmq.Connection.Usable.{checked-IsUsable}
use mentor_ia_worker.Rabbitmq.Connection.Ends.{
  Ends, call-Ends, labelled-Ends, closing-Ends, closing_on_error-Ends, handle_of-Ends, after-Ends,
}
use mentor_ia_worker.Rabbitmq.Connection.{
  Config, Client, checked, closing, declare_queues, declare_topology, open_consumer_channel,
  open_publisher_channel, with_publisher, prepared, connected, connect,
}

-- What holds of the result and of the broker after a call that works.
abbrev Any : Broker → Type 0
Any b = Unit

abbrev Yields {ℓ} : {A : Type ℓ} → (A → Broker → Type 0) → Result A × Broker → Type 0
Yields Q = Ends Q Any

-- The queues and the prefetch counts of the broker.
abbrev IsPrepared : List Bytes → List ℤ → Broker → Type 0
IsPrepared queues prefetch b = (b.queues ≡ queues) × (b.prefetch ≡ prefetch)

closing-Yields {ℓ} :
    {A : Type ℓ} (queues : List Bytes) (prefetch : List ℤ) (h : Handle) (r : Result A × Broker)
    → Yields (λ _. IsPrepared queues prefetch) r
    → Yields (λ _. IsPrepared queues prefetch) (closing h r)
unfolding close_handle
closing-Yields queues prefetch h r l =
    closing-Ends (λ _. IsPrepared queues prefetch) Any (λ _. IsPrepared queues prefetch) Any h
      (λ a b s. s) (λ b t. t) r l

opened-Yields :
    (m : String) (qs : List Bytes) (ps : List ℤ) (b : Broker)
    → IsPrepared qs ps b
    → Yields (λ _. IsPrepared qs ps) (labelled m open_channel b)
unfolding open_channel
opened-Yields m qs ps b s =
    labelled-Ends (λ _. IsPrepared qs ps) Any m open_channel b
      (call-Ends (λ _. IsPrepared qs ps) Any _ _ b s tt)

declared-Yields :
    (m : String) (name : Bytes) (qs : List Bytes) (ps : List ℤ) (b : Broker)
    → IsPrepared qs ps b
    → Yields (λ _. IsPrepared (name ∷ qs) ps) (labelled m (declare_queue name) b)
unfolding declare_queue
declared-Yields m name qs ps b s =
    labelled-Ends (λ _. IsPrepared (name ∷ qs) ps) Any m (declare_queue name) b
      (call-Ends (λ _. IsPrepared (name ∷ qs) ps) Any tt _ b (ap (◌∷◌ name) s.0, s.1) tt)

declare_topology-Yields :
    (queue dlq : Bytes) (qs : List Bytes) (ps : List ℤ) (b : Broker)
    → IsPrepared qs ps b
    → Yields (λ _. IsPrepared (dlq ∷ queue ∷ qs) ps) (declare_topology queue dlq b)
unfolding declare_topology declare_queues
declare_topology-Yields queue dlq qs ps b s =
    after-Ends (λ _. IsPrepared qs ps) (λ _. IsPrepared (dlq ∷ queue ∷ qs) ps) Any _ _
      (opened-Yields _ qs ps b s)
      λ h c t. closing-Yields (dlq ∷ queue ∷ qs) ps h _ (
        after-Ends (λ _. IsPrepared (queue ∷ qs) ps) (λ _. IsPrepared (dlq ∷ queue ∷ qs) ps) Any _ _
          (declared-Yields _ queue qs ps c t) λ _ d u. declared-Yields _ dlq (queue ∷ qs) ps d u)

open_consumer_channel-Yields :
    (count : ℤ) (qs : List Bytes) (ps : List ℤ) (b : Broker)
    → IsPrepared qs ps b
    → Yields (λ _. IsPrepared qs (count ∷ ps)) (open_consumer_channel count b)
unfolding open_consumer_channel set_prefetch
open_consumer_channel-Yields count qs ps b s =
    after-Ends (λ _. IsPrepared qs ps) (λ _. IsPrepared qs (count ∷ ps)) Any _ _
      (opened-Yields _ qs ps b s)
      λ h c t.
        handle_of-Ends (λ _. (IsPrepared qs (count ∷ ps))) Any (λ _. (IsPrepared qs (count ∷ ps))) h
          (λ a b q. q) _
          (closing_on_error-Ends (λ _. IsPrepared qs (count ∷ ps)) Any Any h (λ b t. t) _
            (labelled-Ends (λ _. IsPrepared qs (count ∷ ps)) Any _ (set_prefetch count) c
              (call-Ends (λ _. IsPrepared qs (count ∷ ps)) Any tt _ c (t.0, ap (◌∷◌ count) t.1)
                tt)))

open_publisher_channel-Yields :
    (qs : List Bytes) (ps : List ℤ) (b : Broker)
    → IsPrepared qs ps b
    → Yields (λ _. IsPrepared qs ps) (open_publisher_channel b)
unfolding open_publisher_channel check
open_publisher_channel-Yields qs ps b s =
    after-Ends (λ _. IsPrepared qs ps) (λ _. IsPrepared qs ps) Any _ _ (opened-Yields _ qs ps b s)
      λ h c t.
        handle_of-Ends (λ _. (IsPrepared qs ps)) Any (λ _. (IsPrepared qs ps)) h (λ a b q. q) _
          (closing_on_error-Ends (λ _. IsPrepared qs ps) Any Any h (λ b t. t) _
            (labelled-Ends (λ _. IsPrepared qs ps) Any _ check c
              (call-Ends (λ _. IsPrepared qs ps) Any tt _ c t tt)))

-- What the client and the broker have of the configuration.
record IsDeclared (config : Config) (qs : List Bytes) (ps : List ℤ) (client : Client) (b : Broker)
    : Type 0 where
  queue : client.queue ≡ config.queue
  dlq : client.dlq ≡ config.dlq
  prefetch : client.prefetch ≡ config.prefetch
  publish_timeout : client.publish_timeout ≡ config.publish_timeout
  declared : IsPrepared (config.dlq ∷ config.queue ∷ qs) (config.prefetch ∷ ps) b

prepared-Yields :
    (config : Config) (qs : List Bytes) (ps : List ℤ) (b : Broker)
    → IsPrepared qs ps b
    → Yields (IsDeclared config qs ps) (prepared config b)
unfolding prepared with_publisher
prepared-Yields config qs ps b s =
    let qs' = config.dlq ∷ config.queue ∷ qs in
    let ps' = config.prefetch ∷ ps in
    after-Ends (λ _. IsPrepared qs' ps) (IsDeclared config qs ps) Any _ _
      (declare_topology-Yields config.queue config.dlq qs ps b s)
      λ _ c t.
        after-Ends (λ _. IsPrepared qs' ps') (IsDeclared config qs ps) Any _ _
          (open_consumer_channel-Yields config.prefetch qs' ps c t)
          λ h d u.
            after-Ends (λ _. IsPrepared qs' ps') (IsDeclared config qs ps) Any _ _
              (closing_on_error-Ends (λ _. IsPrepared qs' ps') Any Any h (λ b t. t) _
                (open_publisher_channel-Yields qs' ps' d u))
              λ _ e v. record {
                queue = refl;
                dlq = refl;
                prefetch = refl;
                publish_timeout = refl;
                declared = v;
              }

connected-Yields :
    (config : Result Config) (qs : List Bytes) (ps : List ℤ) (b : Broker)
    → IsPrepared qs ps b
    → Yields
        (λ client c. (used : Config) × (config ≡ ok used) × IsDeclared used qs ps client c)
        (connected config b)
unfolding connected dial
connected-Yields (err e) qs ps b s = tt
connected-Yields (ok config) qs ps b s =
    after-Ends (λ _. IsPrepared qs ps)
      (λ client c. (used : Config) × (ok config ≡ ok used) × IsDeclared used qs ps client c) Any _ _
      (labelled-Ends (λ _. IsPrepared qs ps) Any _ (dial config.url) b
        (call-Ends (λ _. IsPrepared qs ps) Any tt _ b s tt))
      λ _ c t.
        closing_on_error-Ends
          (λ client c. (used : Config) × (ok config ≡ ok used) × IsDeclared used qs ps client c) Any
          Any connection (λ b t. t) (prepared config c)
          (with_config (prepared config c) (prepared-Yields config qs ps c t))
  where
    with_config :
        (r : Result Client × Broker)
        → Yields (IsDeclared config qs ps) r
        → Yields
            (λ client c. (used : Config) × (ok config ≡ ok used) × IsDeclared used qs ps client c)
            r
    with_config (ok client, c) d = (config, refl, d)
    with_config (err e, c) d = tt

-- The client of a Connect that works: its two queues are named, and are declared on the broker and
-- nothing else is; its prefetch count and its timeout are positive; the count is set once.
pub record IsReady (b : Broker) (client : Client) (b' : Broker) : Type 0 where
  pub queue : is_empty client.queue ≡ false
  pub dlq : is_empty client.dlq ≡ false
  pub prefetch : leb_ℤ client.prefetch (pos 0) ≡ false
  pub publish_timeout : leb_ℤ client.publish_timeout (pos 0) ≡ false
  pub queues : b'.queues ≡ client.dlq ∷ client.queue ∷ b.queues
  pub counts : b'.prefetch ≡ client.prefetch ∷ b.prefetch

-- The client of a Connect that works has two queues with names, which are all that was declared,
-- and a positive timeout and prefetch count, which is set on the broker once.
pub connect-IsReady :
    (given : Config) (client : Client) (b b' : Broker)
    → connect given b ≡ (ok client, b')
    → IsReady b client b'
unfolding connect
connect-IsReady given client b b' h =
    let (config, e, d) =
      of_ok (connected-Yields (checked given) b.queues b.prefetch b (refl, refl)) in
    let usable = checked-IsUsable given config e in
    record {
      queue = rw (d.queue) usable.queue;
      dlq = rw (d.dlq) usable.dlq;
      prefetch = ap (λ n. leb_ℤ n (pos 0)) d.prefetch ∙ usable.prefetch;
      publish_timeout = rw (d.publish_timeout) usable.publish_timeout;
      queues =
          d.declared.0
          ∙ ap (λ q. config.dlq ∷ q ∷ b.queues) (sym d.queue)
          ∙ ap (λ q. q ∷ client.queue ∷ b.queues) (sym d.dlq);
      counts = d.declared.1 ∙ ap (λ n. n ∷ b.prefetch) (sym d.prefetch);
    }
  where
    of_ok :
        Yields
          (λ client c.
            (used : Config) × (checked given ≡ ok used)
            × IsDeclared used b.queues b.prefetch client c)
          (connected (checked given) b)
        → (used : Config) × (checked given ≡ ok used)
          × IsDeclared used b.queues b.prefetch client b'
    of_ok y =
        subst
          (Yields (λ client c.
            (used : Config) × (checked given ≡ ok used)
            × IsDeclared used b.queues b.prefetch client c))
          h y
