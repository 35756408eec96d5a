-- ===== src/Service/Outcome.antt =====
-- Process as a sequence of calls of the store and of the AI client.
use mentor_ia_worker.Prelude.{String, ◌≡◌, ◌≢◌, true, false, some, List, ℤ, pos}
use mentor_ia_worker.Text.{Bytes, bytes}
use mentor_ia_worker.Domain.{Message, DisciplinePerformance, ProcessingLease, failed, retry}
use mentor_ia_worker.Domain.Errors.{
  Error, Result, ok, err, wrap, caused_by, and_also, job_failed, retry_scheduled, lease_lost,
  errors_is, as_retryable,
}
use mentor_ia_worker.Prompt.{build}
use mentor_ia_worker.Postgres.Session.{World}
use mentor_ia_worker.Postgres.Begin.{acquired, already_handled}
use mentor_ia_worker.Service.{Store, AiClient, Service}

-- How many attempts a failure leaves to the job.
pub data Allows (s : Service) (f : Error) : ℤ → Type 0 where
  -- the error says that it is final
  final : as_retryable f ≡ some false → Allows s f (pos 1)
  -- it says that it can be retried, or it says nothing
  retried : as_retryable f ≢ some false → Allows s f s.max_attempts

-- A failure of the job is registered under its lease, with its code and the attempts that it
-- leaves; what the store answers decides the result.
pub data Registers (s : Service) (store : Store) (l : ProcessingLease) (code : String) (f : Error)
    (v : World) : Result (Unit {0}) → World → Type 0 where
  failed_for_good :
      (n : ℤ) (w : World)
      → Allows s f n
      → store.registers l n (bytes code) f v ≡ (ok failed, w)
      → Registers s store l code f v (err (caused_by job_failed f)) w
  put_off :
      (n : ℤ) (w : World)
      → Allows s f n
      → store.registers l n (bytes code) f v ≡ (ok retry, w)
      → Registers s store l code f v (err (caused_by retry_scheduled f)) w
  -- another worker holds the job
  register_lost :
      (n : ℤ) (w : World) (e : Error)
      → Allows s f n
      → store.registers l n (bytes code) f v ≡ (err e, w)
      → errors_is lease_lost e ≡ true
      → Registers s store l code f v (ok tt) w
  not_registered :
      (n : ℤ) (w : World) (e : Error)
      → Allows s f n
      → store.registers l n (bytes code) f v ≡ (err e, w)
      → errors_is lease_lost e ≡ false
      → Registers s store l code f v (err (and_also f e)) w

-- The content is saved under the lease, together with the disciplines.
pub data Saves (s : Service) (store : Store) (l : ProcessingLease) (content : Bytes)
    (ds : List DisciplinePerformance) (v : World) : Result (Unit {0}) → World → Type 0 where
  saved :
      (w : World) (t : Unit {0})
      → store.saves l content ds v ≡ (ok t, w)
      → Saves s store l content ds v (ok tt) w
  save_lost :
      (w : World) (e : Error)
      → store.saves l content ds v ≡ (err e, w)
      → errors_is lease_lost e ≡ true
      → Saves s store l content ds v (ok tt) w
  not_saved :
      (u w : World) (e : Error) (r : Result (Unit {0}))
      → store.saves l content ds v ≡ (err e, u)
      → errors_is lease_lost e ≡ false
      → Registers s store l "INSIGHT_SAVE_FAILED" e u r w
      → Saves s store l content ds v r w

-- The work under a lease: the three worst disciplines of the student of the job are read, the
-- model is asked with the prompt that is built of them, and its answer is saved.
pub data Works (s : Service) (store : Store) (ai : AiClient) (l : ProcessingLease) (v : World)
    : Result (Unit {0}) → World → Type 0 where
  not_found :
      (u w : World) (e : Error) (r : Result (Unit {0}))
      → store.finds l.message.aluno_id 3 v ≡ (err e, u)
      → Registers s store l "DISCIPLINES_QUERY_FAILED" e u r w
      → Works s store ai l v r w
  not_answered :
      (u x w : World) (ds : List DisciplinePerformance) (e : Error) (r : Result (Unit {0}))
      → store.finds l.message.aluno_id 3 v ≡ (ok ds, u)
      → ai.complete (build s.format ds) u ≡ (err e, x)
      → Registers s store l "AI_COMPLETION_FAILED" e x r w
      → Works s store ai l v r w
  answered :
      (u x w : World) (ds : List DisciplinePerformance) (content : Bytes) (r : Result (Unit {0}))
      → store.finds l.message.aluno_id 3 v ≡ (ok ds, u)
      → ai.complete (build s.format ds) u ≡ (ok content, x)
      → Saves s store l content ds x r w
      → Works s store ai l v r w

pub data Processes (s : Service) (store : Store) (ai : AiClient) (m : Message) (v : World)
    : Result (Unit {0}) → World → Type 0 where
  not_begun :
      (w : World) (e : Error)
      → store.begins m v ≡ (err e, w)
      → Processes s store ai m v (err (wrap "falha ao iniciar processamento do insight: " e)) w
  handled :
      (w : World) → store.begins m v ≡ (ok already_handled, w) → Processes s store ai m v (ok tt) w
  leased :
      (u w : World) (l : ProcessingLease) (r : Result (Unit {0}))
      → store.begins m v ≡ (ok (acquired l), u)
      → Works s store ai l u r w
      → Processes s store ai m v r w
