-- ===== src/Main/Closing.antt =====
-- What run leaves open, and what its return says.
use mentor_ia_worker.Prelude.{
  ℕ, suc, Bool, true, false, not, Option, none, some, List, [], ◌∷◌, ◌≡◌, refl, ◌∙◌, All, eq_bytes,
  if◌then◌else◌,
}
use mentor_ia_worker.Text.{Bytes, bytes, is_empty}
use mentor_ia_worker.Domain.Errors.{Error, Result, ok, err, plain, about}
use mentor_ia_worker.Config.{Environment}
use mentor_ia_worker.Config.Url.{UrlLibrary}
use mentor_ia_worker.Config.Load.{Config, load}
use mentor_ia_worker.OpenRouter
use mentor_ia_worker.Rabbitmq.Library.{Handle, Broker}
use mentor_ia_worker.Rabbitmq.Connection
use mentor_ia_worker.Rabbitmq.Connection.Resources.{
  Leaves, handles, connect-Leaves, close_all, consume-Leaves,
}
use mentor_ia_worker.Main.{
  Watched, context_done, channel_closed, connection_error, watch_connection, Outside, Process,
  close_pool, pinged, new_pool, connect_pool, openrouter_config, rabbitmq_config, waited,
  closing_client, with_client, closing_pool, with_pool, with_model, configured, run,
}

-- Nothing of RabbitMQ is open, and so many pools are.
pub record IsClosed (pools : ℕ) (p : Process) : Type 0 where
  pub same_pools : p.pools ≡ pools
  pub no_handles : p.broker.live ≡ []

waited-live :
    (out : Outside) (hs : List Handle) (r : Result (Unit {0}) × Broker) (p : Process)
    → Leaves (λ _. hs) hs r
    → ((waited out r p).1.pools ≡ p.pools) × ((waited out r p).1.broker.live ≡ hs)
unfolding waited
waited-live out hs (ok _, b) p l = (refl, l)
waited-live out hs (err e, b) p l = (refl, l)

with_client-IsClosed :
    (out : Outside) (r : Result Connection.Client × Broker) (p : Process)
    → Leaves handles [] r
    → IsClosed p.pools ((with_client out r p).1)
unfolding with_client closing_client
with_client-IsClosed out (err e, b) p l = record { same_pools = refl; no_handles = l }
with_client-IsClosed out (ok client, b) p l =
    let (pools, live) =
      waited-live out (handles client) (Connection.consume client b) p
        (consume-Leaves client (handles client) b l) in
    record { same_pools = pools; no_handles = close_all out.is_closed client _ live }

closing_pool-IsClosed :
    (n : ℕ) (r : Result (Unit {0}) × Process)
    → IsClosed (suc n) (r.1)
    → IsClosed n ((closing_pool r).1)
unfolding closing_pool close_pool
closing_pool-IsClosed n (r, p) c = record {
  same_pools = rw (c.same_pools) refl;
  no_handles = c.no_handles;
}

-- The result of a Connect that opened one pool, or none if it failed.
abbrev Pooled : ℕ → Result (Unit {0}) × Process → Type 0
Pooled n (ok _, p) = IsClosed (suc n) p
Pooled n (err e, p) = IsClosed n p

connect_pool-Pooled :
    (url : Bytes) (out : Outside) (p : Process)
    → p.broker.live ≡ []
    → Pooled p.pools (connect_pool url out p)
unfolding connect_pool new_pool pinged close_pool
connect_pool-Pooled url out p e = at_url (is_empty url) out.pool_error out.ping_error
  where
    at_url :
        (b : Bool) (o ping : Option Error)
        → Pooled p.pools
            (if b then (err (plain "DATABASE_URL nao pode estar vazio"), p) else new_pool o ping p)
    at_url true o ping = record { same_pools = refl; no_handles = e }
    at_url false (some x) ping = record { same_pools = refl; no_handles = e }
    at_url false none (some x) = record { same_pools = refl; no_handles = e }
    at_url false none none = record { same_pools = refl; no_handles = e }

with_pool-IsClosed :
    (out : Outside) (cfg : Config) (n : ℕ) (r : Result (Unit {0}) × Process)
    → Pooled n r
    → IsClosed n ((with_pool out cfg r).1)
unfolding with_pool
with_pool-IsClosed out cfg n (err e, p) c = c
with_pool-IsClosed out cfg n (ok _, p) c =
    closing_pool-IsClosed n (with_client out (Connection.connect (rabbitmq_config cfg) p.broker) p)
      (same_count
        (with_client-IsClosed out _ p (connect-Leaves (rabbitmq_config cfg) p.broker c.no_handles)))
  where
    same_count : {q : Process} → IsClosed p.pools q → IsClosed (suc n) q
    same_count d = record { same_pools = d.same_pools ∙ c.same_pools; no_handles = d.no_handles }

with_model-IsClosed :
    (out : Outside) (cfg : Config) (r : Result OpenRouter.Client) (p : Process)
    → p.broker.live ≡ []
    → IsClosed p.pools ((with_model out cfg r p).1)
unfolding with_model
with_model-IsClosed out cfg (err e) p f = record { same_pools = refl; no_handles = f }
with_model-IsClosed out cfg (ok _) p f =
    with_pool-IsClosed out cfg p.pools _ (connect_pool-Pooled cfg.database_url out p f)

configured-IsClosed :
    (out : Outside) (r : Result Config) (p : Process)
    → p.broker.live ≡ []
    → IsClosed p.pools ((configured out r p).1)
unfolding configured
configured-IsClosed out (err e) p f = record { same_pools = refl; no_handles = f }
configured-IsClosed out (ok cfg) p f =
    supported (not (eq_bytes cfg.ai_provider (bytes "openrouter")))
  where
    supported :
        (b : Bool)
        → IsClosed p.pools (
            (if b
              then (err (about "provedor de IA nao suportado: " cfg.ai_provider), p)
              else with_model out cfg (OpenRouter.new (openrouter_config cfg)) p).1)
    supported true = record { same_pools = refl; no_handles = f }
    supported false = with_model-IsClosed out cfg _ p f

-- Wherever run stops, and whatever its calls and its components return, the pool of PostgreSQL, the
-- channels and the connection to RabbitMQ that it opened are closed when it returns.
pub run-IsClosed :
    {Url : Type 0} (library : UrlLibrary Url) (env : Environment) (out : Outside) (p : Process)
    → p.broker.live ≡ []
    → IsClosed p.pools ((run library env out p).1)
unfolding run
run-IsClosed library env out p f = configured-IsClosed out (load library env) p f

-- The four components have returned nil.
abbrev AllReturned : Outside → Type 0
AllReturned out =
    All (λ r. r ≡ ok tt)
      (out.consumer ∷ out.scheduler ∷ out.dispatcher ∷ watch_connection out.watched ∷ [])

waited-ok :
    (out : Outside) (r : Result (Unit {0}) × Broker) (p : Process)
    → (waited out r p).0 ≡ ok tt
    → AllReturned out
unfolding waited
waited-ok out (ok _, b) p h = (out.group.wait-ok _).0 h
waited-ok out (err e, b) p h = cc

with_client-ok :
    (out : Outside) (r : Result Connection.Client × Broker) (p : Process)
    → (with_client out r p).0 ≡ ok tt
    → AllReturned out
unfolding with_client closing_client
with_client-ok out (ok client, b) p h = waited-ok out (Connection.consume client b) p h
with_client-ok out (err e, b) p h = cc

with_pool-ok :
    (out : Outside) (cfg : Config) (r : Result (Unit {0}) × Process)
    → (with_pool out cfg r).0 ≡ ok tt
    → AllReturned out
unfolding with_pool closing_pool
with_pool-ok out cfg (err e, p) h = cc
with_pool-ok out cfg (ok _, p) h =
    with_client-ok out (Connection.connect (rabbitmq_config cfg) p.broker) p h

with_model-ok :
    (out : Outside) (cfg : Config) (r : Result OpenRouter.Client) (p : Process)
    → (with_model out cfg r p).0 ≡ ok tt
    → AllReturned out
unfolding with_model
with_model-ok out cfg (err e) p h = cc
with_model-ok out cfg (ok _) p h = with_pool-ok out cfg (connect_pool cfg.database_url out p) h

configured-ok :
    (out : Outside) (r : Result Config) (p : Process)
    → (configured out r p).0 ≡ ok tt
    → (cfg : Config) × (r ≡ ok cfg)
      × (eq_bytes cfg.ai_provider (bytes "openrouter") ≡ true)
      × AllReturned out
unfolding configured
configured-ok out (err e) p h = cc
configured-ok out (ok cfg) p h =
    let (provider, returned) = supported (eq_bytes cfg.ai_provider (bytes "openrouter")) h in
    (cfg, refl, provider, returned)
  where
    supported :
        (b : Bool)
        → (if not b
            then (err (about "provedor de IA nao suportado: " cfg.ai_provider), p)
            else with_model out cfg (OpenRouter.new (openrouter_config cfg)) p).0
          ≡ ok tt
        → (b ≡ true) × AllReturned out
    supported true g = (refl, with_model-ok out cfg _ p g)
    supported false g = cc

watch_connection-ok : (w : Watched) → watch_connection w ≡ ok tt → w ≡ context_done
unfolding watch_connection
watch_connection-ok context_done h = refl
watch_connection-ok channel_closed h = cc
watch_connection-ok (connection_error none) h = cc
watch_connection-ok (connection_error (some e)) h = cc

-- run returns no error only if Load accepted the environment, the provider is openrouter, the
-- consumer, the scheduler and the dispatcher returned no error, and the connection to RabbitMQ was
-- not lost before the context was done.
pub run-ok :
    {Url : Type 0} (library : UrlLibrary Url) (env : Environment) (out : Outside) (p : Process)
    → (run library env out p).0 ≡ ok tt
    → ((cfg : Config) × (load library env ≡ ok cfg)
        × (eq_bytes cfg.ai_provider (bytes "openrouter") ≡ true))
      × (out.consumer ≡ ok tt)
      × (out.scheduler ≡ ok tt)
      × (out.dispatcher ≡ ok tt)
      × (out.watched ≡ context_done)
unfolding run
run-ok library env out p h =
    let (cfg, loaded, provider, returned) = configured-ok out (load library env) p h in
    (
      (cfg, loaded, provider),
      returned.0,
      returned.1.0,
      returned.1.1.0,
      watch_connection-ok out.watched (returned.1.1.1.0),
    )
