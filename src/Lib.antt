-- ===== src/Lib.antt =====
-- Verification of the Mentor.ia insights worker, a Go program that takes messages from RabbitMQ,
-- asks a language model for a study insight and stores it in PostgreSQL.
--
-- The parts and their files
--
-- Domain: internal/insights/domain. The message of the queue and its decoder (ParseMessage), the
--   lease, the events of the outbox. Domain/Errors has Go's errors as trees, with errors.Is,
--   errors.As and Error(); Domain/Parsing is about ParseMessage.
-- Postgres: internal/insights/postgres/repository.go. Tables has the rows and the behaviour of
--   PostgreSQL and its driver that the statements rely on (Server, a parameter); Session has the
--   calls of pgx; Rows has what the statements share. Begin is BeginProcessing and
--   FindLowestPerformanceDisciplines, Save is SaveInsightResult, Failure is RegisterFailure,
--   Schedule is ScheduleDueRetryJobs, and Events has ClaimPendingOutboxEvents,
--   MarkOutboxEventPublished and MarkOutboxEventFailed. Begin/Lease, Begin/Exclusive,
--   Save/Effect, Save/Atomic, Failure/Effect, Failure/Atomic, Schedule/Effect, Schedule/Batch,
--   Events/Lock, Events/Mark and Events/Refusal are about these operations. JobLaw is the interface
--   between a property of the jobs and the operations, which Begin/Keeps, Save/Keeps,
--   Failure/Keeps, Schedule/Keeps and Events/Keeps take one by one. Steps has the operations of any
--   number of workers as steps on one world; Steps/Consistency, Steps/Fencing, Steps/Backoff,
--   Steps/Events, Steps/Lifecycle (with Runs and Endings) and Steps/Accounting (with Settling,
--   Saving, Failing, Scheduling and Runs) are about all that can be reached so. Extension and
--   Counting say how tables grow and what they count; Rows/Lookup finds a row again in a table
--   that has changed.
-- Service: internal/insights/service/service.go. Process and registerFailure, over the interfaces of
--   the store and of the AI client; Service/Outcome is about Process,
--   Service/Retries about the errors of the model in it.
-- Worker: internal/insights/worker/consumer.go. handleDelivery, which returns the operations on the
--   broker in their order; Worker/Settling is about them. Worker/Pool is Run: the loop and its
--   goroutines as one state, each ready case of a select as a move, and the deliveries, the closing
--   of the channel and the cancellation as moves from outside; Worker/Pool/Invariant is about its
--   states, Worker/Pool/Shutdown about its end.
-- Dispatcher: internal/insights/outbox/dispatcher.go and internal/insights/retry/scheduler.go. The
--   two loops over the tables; Dispatcher/Delivery is about the first.
-- Prompt: internal/insights/prompt/prompt.go. OpenRouter: internal/ai/openrouter/client.go, with
--   OpenRouter/Classification. Config: internal/config/config.go, with Config/Decimal for
--   strconv.Atoi, Config/Numerals for what it reads and Config/Validity for the conditions;
--   Config/Url has getDatabaseURL and maskURL, Config/Load has Load as a whole and LogAttrs, and
--   Config/Url/Masking and Config/Load/Secrets are about these.
-- Rabbitmq: internal/platform/rabbitmq. Connection is connection.go, topology.go and consumer.go,
--   with Connection/Resources for what is left open, Connection/Usable for its conditions and
--   Connection/Declared for what is set up, by the lemmas of Connection/Ends;
--   Publisher is publisher.go, with Publisher/Confirms; Library has the calls of the AMQP library.
-- Main: run of cmd/insights-worker/main.go, with Connect and Close of
--   internal/platform/postgres/client.go; Main/Closing is about it. Main/Wiring has the parts that
--   run makes of the configuration.
-- Tools: Tools/DotEnv is internal/testsupport/env.go, Tools/AiCheck is scripts/test-ai.go.
-- Prelude, Text: what the parts share, and Go's strings as lists of bytes. Tests runs the theorems
--   at concrete inputs.
--
-- How the parts interact: the consumer decodes a delivery and calls Process; Process takes the job
-- through the repository, asks the client for an insight, and saves it or registers the failure;
-- the scheduler and the dispatcher bring jobs and events back to the queue. All of them act on one
-- World: the tables, the time of NOW(), the uuids drawn so far, the rows that others have locked,
-- and the outcomes of the calls to come. run opens the model, the database and the broker one after
-- the other, waits for the parts that run side by side, whose results are inputs of the
-- model of run, and closes what it opened.
--
-- Calls that fail: the outcome of every call of the database is an input. A call works, fails before
-- it takes effect, or takes effect and loses its reply, commits included. A transaction works on
-- tables of its own; the deferred Rollback drops them.
--
-- Bounds: instants are in milliseconds, durations in nanoseconds; Config computes with Go's 64-bit
-- integers, wrap-around written out. Every loop is over a list or a number of ticks, but for the
-- search for a .env file: its fuel is one more than the bytes of the path, since every directory
-- above has a shorter one. Two runs of one action interleave as sequences of actions on the World;
-- the goroutines of one Run interleave as moves on its state. The mutex of the publisher makes one
-- publication follow another, so it has no state of its own.
--
-- Parameters: encoding/json, net/http, the uuid and pgx packages, net/url, errgroup, the query
-- that sqlc generates, and the format of a float64 are arguments, with the laws of their
-- documentation. Of the AMQP library and of the pool, each call works or fails as an input says; the
-- notices of the broker are inputs.
--
-- Not modelled: logs and metrics, which change nothing, and with them internal/platform/logger;
-- the signals of main, which cancel the context; the queries that sqlc generates; cmd/teste-get,
-- which answers every request with a constant.
mod Prelude
pub mod Text
pub mod Domain
pub mod Postgres
pub mod Prompt
pub mod Service
pub mod Worker
pub mod Dispatcher
pub mod OpenRouter
pub mod Rabbitmq
pub mod Config
pub mod Main
pub mod Tools
mod Tests
