-- ===== src/Worker/Settling.antt =====
-- Every delivery is settled once, and acknowledged only when its message is safe.
use mentor_ia_worker.Prelude.{
  ℕ, suc, ◌≡◌, refl, sym, ap, subst, ◌∙◌, ◌↔◌, ◌⊎◌, inl, inr, Bool, true, false, ◌||◌, Option, none,
  some, List, [], ◌∷◌, arith, Bool-cases,
}
use mentor_ia_worker.Text.{Bytes}
use mentor_ia_worker.Domain.{Message, parse_message}
use mentor_ia_worker.Domain.Errors.{Error, Result, ok, err, job_failed, retry_scheduled, errors_is}
use mentor_ia_worker.Postgres.Session.{World, Action}
use mentor_ia_worker.Worker.{
  Operation, publish_raw_to_dlq, ack, nack, Consumer, after_publish, reject, settle, parsed,
  handle_delivery,
}

-- How often a delivery is settled.
abbrev pub settlements : List Operation → ℕ
settlements [] = 0
settlements (ack ∷ ops) = suc (settlements ops)
settlements (nack _ ∷ ops) = suc (settlements ops)
settlements (publish_raw_to_dlq _ ∷ ops) = settlements ops

abbrev pub is_acknowledged : List Operation → Bool
is_acknowledged [] = false
is_acknowledged (ack ∷ ops) = true
is_acknowledged (_ ∷ ops) = is_acknowledged ops

-- A settlement that keeps the message: acknowledged, or back in the queue.
abbrev pub is_requeued : List Operation → Bool
is_requeued [] = false
is_requeued (nack true ∷ ops) = true
is_requeued (_ ∷ ops) = is_requeued ops

-- When the end of Process stands for work that the tables hold.
pub data IsRecorded : Result (Unit {0}) → Type 0 where
  done : (t : Unit {0}) → IsRecorded (ok t)
  failed : (e : Error) → errors_is job_failed e ≡ true → IsRecorded (err e)
  rescheduled : (e : Error) → errors_is retry_scheduled e ≡ true → IsRecorded (err e)

-- Why a delivery may be acknowledged.
pub data IsSafe (c : Consumer) (body : Bytes) (w : World) : Type 0 where
  processed :
      (m : Message)
      → parse_message c.codec body ≡ ok m
      → IsRecorded (c.processor m w).0
      → IsSafe c body w
  dead_lettered :
      (e : Error) (publish : Bytes → Action (Unit {0})) (t : Unit {0})
      → parse_message c.codec body ≡ err e
      → c.dead_letter_publisher ≡ some publish
      → (publish body w).0 ≡ ok t
      → IsSafe c body w

settle-settlements :
    (r : Result (Unit {0}))
    → (settlements (settle r) ≡ 1) × ((is_acknowledged (settle r) || is_requeued (settle r)) ≡ true)
unfolding settle
settle-settlements (ok t) = (refl, refl)
settle-settlements (err e) = ground arith

after_publish-settlements :
    (body : Bytes) (r : Result (Unit {0}) × World)
    → (settlements (after_publish body r).0 ≡ 1)
      × ((is_acknowledged (after_publish body r).0 || is_requeued (after_publish body r).0) ≡ true)
unfolding after_publish
after_publish-settlements body (ok t, w) = (refl, refl)
after_publish-settlements body (err e, w) = (refl, refl)

parsed-settlements :
    (c : Consumer) (body : Bytes) (w : World) (r : Result Message)
    (publisher : Option (Bytes → Action (Unit {0})))
    → c.dead_letter_publisher ≡ publisher
    → (settlements (parsed c body r w).0 ≡ 1)
      × ((is_acknowledged (parsed c body r w).0 || is_requeued (parsed c body r w).0) ≡ true)
unfolding parsed reject
parsed-settlements c body w (ok m) publisher p = settle-settlements (c.processor m w).0
parsed-settlements c body w (err e) none p = rw p (refl, refl)
parsed-settlements c body w (err e) (some publish) p =
    rw p (after_publish-settlements body (publish body w))

-- Whatever the body of a delivery is, and whatever processing and publishing return, the handler
-- settles the delivery exactly once, by an Ack or by a Nack that puts it back in the queue.
pub handle_delivery_settles_once :
    (c : Consumer) (body : Bytes) (w : World)
    → let ops = (handle_delivery c body w).0 in
      (settlements ops ≡ 1) × ((is_acknowledged ops || is_requeued ops) ≡ true)
unfolding handle_delivery
handle_delivery_settles_once c body w =
    parsed-settlements c body w (parse_message c.codec body) c.dead_letter_publisher refl

recorded_error :
    (e : Error)
    → IsRecorded (err e)
    → (errors_is job_failed e ≡ true) ⊎ (errors_is retry_scheduled e ≡ true)
recorded_error e (failed _ h) = inl h
recorded_error e (rescheduled _ h) = inr h

settle-IsRecorded : (r : Result (Unit {0})) → (is_acknowledged (settle r) ≡ true) ↔ IsRecorded r
unfolding settle
settle-IsRecorded (ok t) = (λ h. done t, λ h. refl)
settle-IsRecorded (err e) = elim (Bool-cases (errors_is job_failed e)) [
  | inl f ↦ rw f (λ h. failed e f, λ h. refl)
  | inr f ↦ elim (Bool-cases (errors_is retry_scheduled e)) [
    | inl s ↦ rw (f, s) (λ h. rescheduled e s, λ h. refl)
    | inr s ↦ rw (f, s) (λ h. cc, λ h. elim (recorded_error e h) [ inl q ↦ cc | inr q ↦ cc ])
  ]
]

after_publish-ok :
    (body : Bytes) (r : Result (Unit {0}) × World)
    → (is_acknowledged (after_publish body r).0 ≡ true) ↔ ((t : Unit {0}) × (r.0 ≡ ok t))
unfolding after_publish
after_publish-ok body (ok t, w) = (λ h. (t, refl), λ h. refl)
after_publish-ok body (err e, w) = (λ h. cc, λ h. cc (h.1))

-- Safety of the two kinds of body, by what decoding gave.
abbrev SafeAs : Consumer → Bytes → World → Result Message → Type 0
SafeAs c body w (ok m) = IsRecorded (c.processor m w).0
SafeAs c body w (err e) =
    (publish : Bytes → Action (Unit {0})) × (t : Unit {0}) × (c.dead_letter_publisher
      ≡ some publish)
    × ((publish body w).0 ≡ ok t)

reject-safe :
    (c : Consumer) (body : Bytes) (w : World) (publisher : Option (Bytes → Action (Unit {0})))
    → c.dead_letter_publisher ≡ publisher
    → (is_acknowledged (reject publisher body w).0 ≡ true) ↔ (
        (publish : Bytes → Action (Unit {0})) × (t : Unit {0}) × (publisher ≡ some publish)
        × ((publish body w).0 ≡ ok t))
unfolding reject
reject-safe c body w none p = (λ h. cc, λ h. cc (h.2))
reject-safe c body w (some publish) p = (
  λ h. let (t, e) = (after_publish-ok body (publish body w)).0 h in (publish, t, refl, e),
  λ h.
      (after_publish-ok body (publish body w)).1 (h.1, ap (λ f. (f body w).0) (same h.0 h.2) ∙ h.3),
)
  where
    same : (q : Bytes → Action (Unit {0})) → some publish ≡ some q → publish ≡ q
    same q e = cc

parsed-safe :
    (c : Consumer) (body : Bytes) (w : World) (r : Result Message)
    → (is_acknowledged (parsed c body r w).0 ≡ true) ↔ SafeAs c body w r
unfolding parsed
parsed-safe c body w (ok m) = settle-IsRecorded (c.processor m w).0
parsed-safe c body w (err e) = reject-safe c body w c.dead_letter_publisher refl

safe_as :
    (c : Consumer) (body : Bytes) (w : World) (r : Result Message)
    → parse_message c.codec body ≡ r
    → SafeAs c body w r
    → IsSafe c body w
safe_as c body w (ok m) e h = processed m e h
safe_as c body w (err x) e (publish, t, p, q) = dead_lettered x publish t e p q

as_safe :
    (c : Consumer) (body : Bytes) (w : World)
    → IsSafe c body w
    → SafeAs c body w (parse_message c.codec body)
as_safe c body w (processed m e h) = subst (SafeAs c body w) (sym e) h
as_safe c body w (dead_lettered x publish t e p q) =
    subst (SafeAs c body w) (sym e) (publish, t, p, q)

-- A delivery is acknowledged exactly when its message is safe: a valid one whose processing
-- returned no error, a final failure or a scheduled retry, or an invalid one whose raw body the
-- dead letter publisher took.
pub handle_delivery_acknowledged :
    (c : Consumer) (body : Bytes) (w : World)
    → (is_acknowledged (handle_delivery c body w).0 ≡ true) ↔ IsSafe c body w
unfolding handle_delivery
handle_delivery_acknowledged c body w = (
  λ h.
      safe_as c body w (parse_message c.codec body) refl
        ((parsed-safe c body w (parse_message c.codec body)).0 h),
  λ h. (parsed-safe c body w (parse_message c.codec body)).1 (as_safe c body w h),
)
