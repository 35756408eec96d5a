-- ===== src/Rabbitmq/Library.antt =====
-- The calls of github.com/rabbitmq/amqp091-go that open and close things, as the package makes them:
-- each works or fails, as a list says, and the calls that worked are kept.
use mentor_ia_worker.Prelude.{
  ℕ, suc, String, Bool, true, false, Option, none, some, List, [], ◌∷◌, ℤ, ◌==◌, if◌then◌else◌,
}
use mentor_ia_worker.Text.{Bytes}
use mentor_ia_worker.Domain.Errors.{Error, Result, ok, err, wrap}

-- A connection, and a channel by the number of its opening.
pub data Handle : Type 0 where
  connection : Handle
  channel : ℕ → Handle

abbrev pub eq_handle : Handle → Handle → Bool
eq_handle connection connection = true
eq_handle (channel m) (channel n) = m == n
eq_handle _ _ = false

-- How many channels were opened; what was opened and not yet closed by the program, the
-- latest first; the durable queues declared; the
-- prefetch counts set; the errors of the calls to come (a list that has run out stands for calls
-- that work).
pub record Broker : Type 0 where
  pub opened : ℕ
  pub live : List Handle
  pub queues : List Bytes
  pub prefetch : List ℤ
  pub errors : List (Option Error)

abbrev pub Call {ℓ} : Type ℓ → Type ℓ
Call A = Broker → Result A × Broker

abbrev pub first_error : List (Option Error) → Option Error
first_error [] = none
first_error (e ∷ _) = e

abbrev pub later_errors : List (Option Error) → List (Option Error)
later_errors [] = []
later_errors (_ ∷ es) = es

abbrev pub called : Broker → Broker
called b = record b { errors = later_errors b.errors }

module _ {ℓ} {A : Type ℓ} where
  abbrev pub answered : Option Error → A → (Broker → Broker) → Call A
  answered none a change b = (ok a, change b)
  answered (some e) a change b = (err e, b)

  -- A call with its result and its effect, if it works.
  abbrev pub call : A → (Broker → Broker) → Call A
  call a change b = answered (first_error b.errors) a change (called b)

  abbrev pub relabel : String → Result A → Result A
  relabel m (ok a) = ok a
  relabel m (err e) = err (wrap m e)

  abbrev pub labelled : String → Call A → Call A
  labelled m act b = let (r, b') = act b in (relabel m r, b')

abbrev pub remove : Handle → List Handle → List Handle
remove h [] = []
remove h (k ∷ ks) = if eq_handle h k then ks else k ∷ remove h ks

-- Close, of a connection or of a channel: it counts as closed by the program whatever the call returns.
unfoldable pub close_handle : Handle → Broker → Option Error × Broker
close_handle h b =
    (first_error b.errors, record b { live = remove h b.live; errors = later_errors b.errors })

-- amqp.Dial
unfoldable pub dial : Bytes → Call (Unit {0})
dial url = call tt λ b. record b { live = connection ∷ b.live }

-- Connection.Channel
unfoldable pub open_channel : Call Handle
open_channel b =
    call (channel b.opened)
      (λ c. record c { opened = suc c.opened; live = channel c.opened ∷ c.live }) b

-- QueueDeclare(name, true, false, false, false, nil)
unfoldable pub declare_queue : Bytes → Call (Unit {0})
declare_queue name = call tt λ b. record b { queues = name ∷ b.queues }

-- Qos(count, 0, false)
unfoldable pub set_prefetch : ℤ → Call (Unit {0})
set_prefetch count = call tt λ b. record b { prefetch = count ∷ b.prefetch }

-- A call that only works or fails: Confirm(false), Consume.
unfoldable pub check : Call (Unit {0})
check = call tt λ b. b
