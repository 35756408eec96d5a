-- ===== src/Rabbitmq/Connection/Ends.antt =====
-- What holds of the result and of the broker after a call, one lemma for each way to build a call.
use mentor_ia_worker.Prelude.{String, Option, none, some}
use mentor_ia_worker.Domain.Errors.{Error, Result, ok, err}
use mentor_ia_worker.Rabbitmq.Library.{
  Handle, Broker, Call, first_error, labelled, answered, call, called, close_handle,
}
use mentor_ia_worker.Rabbitmq.Connection.{closing, closing_on_error, after, handle_of}

-- A property of the result and the broker if the call works, and one of the broker if it fails.
abbrev pub Ends {ℓ} :
    {A : Type ℓ} → (A → Broker → Type 0) → (Broker → Type 0) → Result A × Broker → Type 0
Ends Q E (ok a, b) = Q a b
Ends Q E (err e, b) = E b

module _ {ℓ} {A : Type ℓ} (Q : A → Broker → Type 0) (E : Broker → Type 0) where
  answered-Ends :
      (o : Option Error) (a : A) (change : Broker → Broker) (b : Broker)
      → Q a (change b)
      → E b
      → Ends Q E (answered o a change b)
  answered-Ends none a change b q e = q
  answered-Ends (some x) a change b q e = e

  pub call-Ends :
      (a : A) (change : Broker → Broker) (b : Broker)
      → Q a (change (called b))
      → E (called b)
      → Ends Q E (call a change b)
  call-Ends a change b q e = answered-Ends (first_error b.errors) a change (called b) q e

  relabelled-Ends :
      (m : String) (r : Result A × Broker) → Ends Q E r → Ends Q E (labelled m (λ _. r) r.1)
  relabelled-Ends m (ok a, c) l = l
  relabelled-Ends m (err x, c) l = l

  pub labelled-Ends :
      (m : String) (act : Call A) (b : Broker) → Ends Q E (act b) → Ends Q E (labelled m act b)
  labelled-Ends m act b l = relabelled-Ends m (act b) l

  pub closing_on_error-Ends :
      (F : Broker → Type 0) (h : Handle)
      → ((b : Broker) → E b → F ((close_handle h b).1))
      → (r : Result A × Broker) → Ends Q E r
      → Ends Q F (closing_on_error h r)
  closing_on_error-Ends F h closed (ok a, b) l = l
  closing_on_error-Ends F h closed (err x, b) l = closed b l

  pub closing-Ends :
      (R : A → Broker → Type 0) (F : Broker → Type 0) (h : Handle)
      → ((a : A) (b : Broker) → Q a b → R a ((close_handle h b).1))
      → ((b : Broker) → E b → F ((close_handle h b).1))
      → (r : Result A × Broker) → Ends Q E r
      → Ends R F (closing h r)
  closing-Ends R F h worked failed (ok a, b) l = worked a b l
  closing-Ends R F h worked failed (err x, b) l = failed b l

  pub handle_of-Ends :
      (R : Handle → Broker → Type 0) (h : Handle)
      → ((a : A) (b : Broker) → Q a b → R h b)
      → (r : Result A × Broker) → Ends Q E r
      → Ends R E (handle_of h r)
  handle_of-Ends R h given (ok a, b) l = given a b l
  handle_of-Ends R h given (err x, b) l = l

pub after-Ends {ℓ κ} :
    {A : Type ℓ} {B : Type κ} (P : A → Broker → Type 0) (Q : B → Broker → Type 0)
    (E : Broker → Type 0) (r : Result A × Broker) (next : A → Call B)
    → Ends P E r
    → ((a : A) (b : Broker) → P a b → Ends Q E (next a b))
    → Ends Q E (after r next)
after-Ends P Q E (ok a, b) next l continued = continued a b l
after-Ends P Q E (err x, b) next l continued = l
