-- ===== src/Worker/Pool.antt =====
-- internal/insights/worker/consumer.go: Run, with its goroutines. The main loop and the workers are
-- parts of one state; each case of a `select` that is ready is a move, in any order.
pub mod Invariant
pub mod Shutdown
use mentor_ia_worker.Prelude.{
  ℕ, zero, suc, ◌≡◌, Bool, true, false, Option, none, some, List, [], ◌∷◌, ◌++◌, ℤ, pos, pos_part,
  leb_ℤ, if◌then◌else◌, All,
}
use mentor_ia_worker.Text.{Bytes}
use mentor_ia_worker.Domain.Errors.{Error, Result, ok, err, plain}
use mentor_ia_worker.Postgres.Session.{World}
use mentor_ia_worker.Worker.{Operation, Consumer, handle_delivery}

-- amqp.Delivery, with its delivery tag.
pub record Delivery : Type 0 where
  pub tag : ℕ
  pub body : Bytes

-- A goroutine that waits for a job, one that is in handleDelivery, and one that has returned.
pub data Hand : Type 0 where
  idle exited : Hand
  busy : Delivery → Hand

-- The main loop: at the outer `select`, at the inner one with a delivery, in the deferred function
-- (`close(jobs)`, `workers.Wait()`) with the result of Run, and after it.
pub data Loop : Type 0 where
  receiving : Loop
  sending : Delivery → Loop
  closing returned : Result (Unit {0}) → Loop

-- `incoming` is what the channel `deliveries` holds. The last three are histories: what was received
-- from the channel, what was handled with the operations that it led to, and what the inner
-- `select` dropped.
pub record Pool : Type 0 where
  pub incoming : List Delivery
  pub closed : Bool
  pub cancelled : Bool
  pub loop : Loop
  pub workers : List Hand
  pub taken : List Delivery
  pub handled : List (Delivery × List Operation)
  pub dropped : List Delivery

abbrev pub hands : ℕ → List Hand
hands zero = []
hands (suc n) = idle ∷ hands n

-- The state in which the loop is entered.
abbrev pub started : ℕ → Pool
started n = record {
  incoming = [];
  closed = false;
  cancelled = false;
  loop = receiving;
  workers = hands n;
  taken = [];
  handled = [];
  dropped = [];
}

-- The test at the beginning of Run.
unfoldable pub run : ℤ → Result Pool
run concurrency =
    if leb_ℤ concurrency (pos 0)
    then err (plain "concorrencia do consumer deve ser maior que zero")
    else ok (started (pos_part concurrency))

-- One worker goes from one state to another.
pub data Turns (h h' : Hand) : List Hand → List Hand → Type 0 where
  first : {hs : List Hand} → Turns h h' (h ∷ hs) (h' ∷ hs)
  later : {k : Hand} {hs hs' : List Hand} → Turns h h' hs hs' → Turns h h' (k ∷ hs) (k ∷ hs')

-- What Run returns when it finds `deliveries` closed.
abbrev pub end_of_deliveries : Bool → Result (Unit {0})
end_of_deliveries true = ok tt
end_of_deliveries false = err (plain "canal de mensagens de insights fechado")

-- `jobs` is closed by the deferred function.
abbrev pub jobs_closed : Loop → Bool
jobs_closed receiving = false
jobs_closed (sending _) = false
jobs_closed (closing _) = true
jobs_closed (returned _) = true

-- The moves of Run and of its goroutines. A delivery is handled in whatever world the other workers
-- leave.
pub data Move (c : Consumer) (s : Pool) : Pool → Type 0 where
  stop : s.loop ≡ receiving → s.cancelled ≡ true → Move c s (record s { loop = closing (ok tt) })
  receive :
      (d : Delivery) (ds : List Delivery)
      → s.loop ≡ receiving
      → s.incoming ≡ d ∷ ds
      → Move c s (record s { loop = sending d; incoming = ds; taken = d ∷ s.taken })
  run_dry :
      s.loop ≡ receiving
      → s.incoming ≡ []
      → s.closed ≡ true
      → Move c s (record s { loop = closing (end_of_deliveries s.cancelled) })
  hand_over :
      (d : Delivery) (ws : List Hand)
      → s.loop ≡ sending d
      → Turns idle (busy d) s.workers ws
      → Move c s (record s { loop = receiving; workers = ws })
  abandon :
      (d : Delivery)
      → s.loop ≡ sending d
      → s.cancelled ≡ true
      → Move c s (record s { loop = closing (ok tt); dropped = d ∷ s.dropped })
  handle :
      (d : Delivery) (ws : List Hand) (w : World)
      → Turns (busy d) idle s.workers ws
      → Move c s
          (record s { workers = ws; handled = (d, (handle_delivery c d.body w).0) ∷ s.handled })
  leave_cancelled :
      (ws : List Hand)
      → s.cancelled ≡ true
      → Turns idle exited s.workers ws
      → Move c s (record s { workers = ws })
  leave_closed :
      (ws : List Hand)
      → jobs_closed s.loop ≡ true
      → Turns idle exited s.workers ws
      → Move c s (record s { workers = ws })
  finish :
      (r : Result (Unit {0}))
      → s.loop ≡ closing r
      → All (λ h. h ≡ exited) s.workers
      → Move c s (record s { loop = returned r })

-- What happens to Run from outside: a delivery arrives, the broker closes the channel, the context
-- is cancelled.
pub data Outside (s : Pool) : Pool → Type 0 where
  arrive :
      (d : Delivery) → s.closed ≡ false → Outside s (record s { incoming = s.incoming ++ d ∷ [] })
  close : Outside s (record s { closed = true })
  cancel : Outside s (record s { cancelled = true })

pub data Reach (c : Consumer) (s : Pool) : Pool → Type 0 where
  here : Reach c s s
  move : {t u : Pool} → Reach c s t → Move c t u → Reach c s u
  meet : {t u : Pool} → Reach c s t → Outside t u → Reach c s u
