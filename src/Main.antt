-- ===== src/Main.antt =====
-- cmd/insights-worker/main.go and internal/platform/postgres/client.go: the opening of what the
-- worker uses, the wait for its components, and the closing.
pub mod Closing
pub mod Wiring
use Prim.Native.String
use mentor_ia_worker.Prelude.{
  ℕ, suc, Bool, true, false, not, Option, none, some, List, [], ◌∷◌, ◌++◌, ◌≡◌, All, ◌↔◌, ℤ,
  eq_bytes, if◌then◌else◌,
}
use mentor_ia_worker.Text.{Bytes, bytes, is_empty}
use mentor_ia_worker.Domain.Errors.{Error, Result, ok, err, plain, about, wrap}
use mentor_ia_worker.Config.{Environment}
use mentor_ia_worker.Config.Url.{UrlLibrary}
use mentor_ia_worker.Config.Load.{Config, load}
use mentor_ia_worker.OpenRouter
use mentor_ia_worker.Rabbitmq.Library.{Broker}
use mentor_ia_worker.Rabbitmq.Connection

-- What a component is waiting for ends: the context; the channel of the errors of the connection,
-- by being closed or with an error, which may be nil.
pub data Watched : Type 0 where
  context_done : Watched
  channel_closed : Watched
  connection_error : Option Error → Watched

-- The fourth component, which watches the connection to RabbitMQ.
unfoldable pub watch_connection : Watched → Result (Unit {0})
watch_connection context_done = ok tt
watch_connection channel_closed = err (plain "conexao RabbitMQ fechada inesperadamente")
watch_connection (connection_error none) = err (plain "conexao RabbitMQ fechada inesperadamente")
watch_connection (connection_error (some e)) = err (wrap "conexao RabbitMQ encerrada: " e)

-- golang.org/x/sync/errgroup: what Wait returns for the results of the components, which is nil
-- just if all are nil.
pub record ErrorGroup : Type 0 where
  pub wait : List (Result (Unit {0})) → Result (Unit {0})
  pub wait-ok :
      (results : List (Result (Unit {0}))) → (wait results ≡ ok tt) ↔ All (λ r. r ≡ ok tt) results

-- What the calls outside return: pgxpool.New, Ping, the Run of the consumer, of the scheduler and
-- of the dispatcher; what ends the fourth component; errors.Is for amqp.ErrClosed.
pub record Outside : Type 0 where
  pub group : ErrorGroup
  pub pool_error : Option Error
  pub ping_error : Option Error
  pub consumer : Result (Unit {0})
  pub scheduler : Result (Unit {0})
  pub dispatcher : Result (Unit {0})
  pub watched : Watched
  pub is_closed : Error → Bool

-- The pools of PostgreSQL that are open, and the broker.
pub record Process : Type 0 where
  pub pools : ℕ
  pub broker : Broker

abbrev open_pool : Process → Process
open_pool p = record p { pools = suc p.pools }

abbrev one_less : ℕ → ℕ
one_less ℕ.zero = 0
one_less (suc n) = n

-- Client.Close
close_pool : Process → Process
close_pool p = record p { pools = one_less p.pools }

-- What follows pgxpool.New.
unfoldable pub pinged : Option Error → Process → Result (Unit {0}) × Process
unfolding close_pool
pinged none p = (ok tt, p)
pinged (some e) p = (err (wrap "falha ao conectar no PostgreSQL: " e), close_pool p)

unfoldable pub new_pool : Option Error → Option Error → Process → Result (Unit {0}) × Process
unfolding pinged
new_pool (some e) ping_error p = (err (wrap "falha ao criar pool do PostgreSQL: " e), p)
new_pool none ping_error p = pinged ping_error (open_pool p)

-- postgres.Connect
unfoldable pub connect_pool : Bytes → Outside → Process → Result (Unit {0}) × Process
unfolding new_pool
connect_pool database_url out p =
    if is_empty database_url
    then (err (plain "DATABASE_URL nao pode estar vazio"), p)
    else new_pool out.pool_error out.ping_error p

-- The Config that run hands to openrouter.New, and the one for rabbitmq.Connect.
abbrev openrouter_config : Config → OpenRouter.Config
openrouter_config cfg = record {
  api_key = cfg.ai_provider_api_key;
  base_url = cfg.ai_provider_base_url;
  model = cfg.ai_model;
  timeout = cfg.ai_request_timeout;
}

abbrev rabbitmq_config : Config → Connection.Config
rabbitmq_config cfg = record {
  url = cfg.rabbitmq_url;
  queue = cfg.rabbitmq_insights_queue;
  dlq = cfg.rabbitmq_insights_dlq;
  queue_name = [];
  prefetch = cfg.rabbitmq_prefetch;
  publish_timeout = cfg.rabbitmq_publish_timeout;
}

-- The wait for the four components, once the consumption has started.
unfoldable pub waited : Outside → Result (Unit {0}) × Broker → Process → Result (Unit {0}) × Process
waited out (err e, b) p = (err e, record p { broker = b })
waited out (ok _, b) p = (
  out.group.wait
      (out.consumer ∷ out.scheduler ∷ out.dispatcher ∷ watch_connection out.watched ∷ []),
  record p { broker = b },
)

-- The deferred Close of the client of RabbitMQ, whose error is only logged.
unfoldable pub closing_client :
    Outside → Connection.Client → Result (Unit {0}) × Process → Result (Unit {0}) × Process
closing_client out client (r, p) =
    (r, record p { broker = (Connection.close out.is_closed client p.broker).1 })

unfoldable pub with_client :
    Outside → Result Connection.Client × Broker → Process → Result (Unit {0}) × Process
unfolding waited closing_client
with_client out (err e, b) p = (err e, record p { broker = b })
with_client out (ok client, b) p =
    closing_client out client (waited out (Connection.consume client b) p)

-- The deferred Close of the client of PostgreSQL.
unfoldable pub closing_pool : Result (Unit {0}) × Process → Result (Unit {0}) × Process
unfolding close_pool
closing_pool (r, p) = (r, close_pool p)

unfoldable pub with_pool :
    Outside → Config → Result (Unit {0}) × Process → Result (Unit {0}) × Process
unfolding with_client closing_pool
with_pool out cfg (err e, p) = (err e, p)
with_pool out cfg (ok _, p) =
    closing_pool (with_client out (Connection.connect (rabbitmq_config cfg) p.broker) p)

unfoldable pub with_model :
    Outside → Config → Result OpenRouter.Client → Process → Result (Unit {0}) × Process
unfolding connect_pool with_pool
with_model out cfg (err e) p = (err e, p)
with_model out cfg (ok _) p = with_pool out cfg (connect_pool cfg.database_url out p)

unfoldable pub configured : Outside → Result Config → Process → Result (Unit {0}) × Process
unfolding with_model
configured out (err e) p = (err e, p)
configured out (ok cfg) p =
    if not (eq_bytes cfg.ai_provider (bytes "openrouter"))
    then (err (about "provedor de IA nao suportado: " cfg.ai_provider), p)
    else with_model out cfg (OpenRouter.new (openrouter_config cfg)) p

-- run
unfoldable pub run :
    {Url : Type 0} → UrlLibrary Url → Environment → Outside → Process → Result (Unit {0}) × Process
unfolding configured
run library env out p = configured out (load library env) p
