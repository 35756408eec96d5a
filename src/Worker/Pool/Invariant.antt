-- ===== src/Worker/Pool/Invariant.antt =====
-- No delivery is lost or handled twice.
use mentor_ia_worker.Prelude.{
  ℕ, zero, suc, ◌+◌, ◌≤◌, ◌≡◌, refl, ap, ◌∙◌, Bool, true, false, List, [], ◌∷◌, arith, All, length,
}
use mentor_ia_worker.Domain.Errors.{Result}
use mentor_ia_worker.Worker.{Operation, Consumer}
use mentor_ia_worker.Worker.Settling.{settlements, handle_delivery_settles_once}
use mentor_ia_worker.Worker.Pool.{
  Delivery, Hand, idle, busy, exited, Loop, receiving, sending, closing, returned, Pool, hands,
  started, Turns, first, later, Move, stop, receive, run_dry, hand_over, abandon, handle,
  leave_cancelled, leave_closed, finish, Outside, arrive, close, cancel, Reach, here, move, meet,
}

-- The weight of deliveries, for any weight of one: with a weight of 1 for one delivery and 0 for
-- the others it counts that one.
module _ (f : Delivery → ℕ) where
  abbrev pub total : List Delivery → ℕ
  total [] = 0
  total (d ∷ ds) = f d + total ds

  abbrev pub total_handled : List (Delivery × List Operation) → ℕ
  total_handled [] = 0
  total_handled ((d, _) ∷ es) = f d + total_handled es

  abbrev pub in_hand : Hand → ℕ
  in_hand idle = 0
  in_hand exited = 0
  in_hand (busy d) = f d

  abbrev pub in_hands : List Hand → ℕ
  in_hands [] = 0
  in_hands (h ∷ hs) = in_hand h + in_hands hs

  abbrev pub in_loop : Loop → ℕ
  in_loop receiving = 0
  in_loop (sending d) = f d
  in_loop (closing _) = 0
  in_loop (returned _) = 0

  in_hands-Turns :
      {h h' : Hand} {hs hs' : List Hand}
      → Turns h h' hs hs'
      → in_hands hs' + in_hand h ≡ in_hands hs + in_hand h'
  in_hands-Turns first = omega arith
  in_hands-Turns (later t) = omega (arith, in_hands-Turns t)

  in_hands-hands : (n : ℕ) → in_hands (hands n) ≡ 0
  in_hands-hands zero = refl
  in_hands-hands (suc n) = omega (arith, in_hands-hands n)

  in_hands-exited : (hs : List Hand) → All (λ h. h ≡ exited) hs → in_hands hs ≡ 0
  in_hands-exited [] h = refl
  in_hands-exited (k ∷ hs) h = rw (h.0) (omega (arith, in_hands-exited hs h.1))

length-Turns : {h h' : Hand} {hs hs' : List Hand} → Turns h h' hs hs' → length hs' ≡ length hs
length-Turns first = refl
length-Turns (later t) = ap suc (length-Turns t)

length-hands : (n : ℕ) → length (hands n) ≡ n
length-hands zero = refl
length-hands (suc n) = ap suc (length-hands n)

abbrev pub is_open : Loop → Bool
is_open receiving = true
is_open (sending _) = true
is_open _ = false

-- What holds in every state of a Run with n workers.
pub record IsSound (n : ℕ) (s : Pool) : Type 0 where
  pub conserved :
      (f : Delivery → ℕ)
      → total f s.taken
        ≡ total_handled f s.handled + in_hands f s.workers + in_loop f s.loop + total f s.dropped
  pub crew : length s.workers ≡ n
  pub settled : All (λ e. settlements e.1 ≡ 1) s.handled
  pub kept : is_open s.loop ≡ true → s.dropped ≡ []
  pub one : length s.dropped ≤ 1
  pub excused : s.cancelled ≡ false → s.dropped ≡ []
  pub gone : (r : Result (Unit {0})) → s.loop ≡ returned r → All (λ h. h ≡ exited) s.workers

started-IsSound : (n : ℕ) → IsSound n (started n)
started-IsSound n = record {
  conserved = λ f. omega (arith, in_hands-hands f n);
  crew = length-hands n;
  settled = tt;
  kept = λ h. refl;
  one = omega arith;
  excused = λ h. refl;
  gone = λ r h. cc;
}

-- A worker that has returned does not move.
Turns-not_exited :
    {h h' : Hand} {hs hs' : List Hand}
    → Turns h h' hs hs'
    → (h ≡ exited → ⊥)
    → All (λ k. k ≡ exited) hs
    → ⊥
Turns-not_exited first other all = other all.0
Turns-not_exited (later t) other all = Turns-not_exited t other all.1

left :
    (c : Consumer) (n : ℕ) {s : Pool} {ws : List Hand}
    → Turns idle exited s.workers ws
    → IsSound n s
    → IsSound n (record s { workers = ws })
left c n t v = record {
  conserved = λ f. omega (arith, v.conserved f, in_hands-Turns f t);
  crew = length-Turns t ∙ v.crew;
  settled = v.settled;
  kept = v.kept;
  one = v.one;
  excused = v.excused;
  gone = λ r q. absurd (Turns-not_exited t (λ x. cc) (v.gone r q));
}

Move-IsSound : (c : Consumer) (n : ℕ) {s t : Pool} → Move c s t → IsSound n s → IsSound n t
Move-IsSound c n {s} (stop e h) v = record {
  conserved = λ f. omega (arith, v.conserved f, ap (in_loop f) e);
  crew = v.crew;
  settled = v.settled;
  kept = λ q. cc;
  one = v.one;
  excused = v.excused;
  gone = λ r q. cc;
}
Move-IsSound c n {s} (receive d ds e i) v = record {
  conserved = λ f. omega (arith, v.conserved f, ap (in_loop f) e);
  crew = v.crew;
  settled = v.settled;
  kept = λ q. v.kept (ap is_open e);
  one = v.one;
  excused = v.excused;
  gone = λ r q. cc;
}
Move-IsSound c n {s} (run_dry e i h) v = record {
  conserved = λ f. omega (arith, v.conserved f, ap (in_loop f) e);
  crew = v.crew;
  settled = v.settled;
  kept = λ q. cc;
  one = v.one;
  excused = v.excused;
  gone = λ r q. cc;
}
Move-IsSound c n {s} (hand_over d ws e t) v = record {
  conserved = λ f. omega (arith, v.conserved f, ap (in_loop f) e, in_hands-Turns f t);
  crew = length-Turns t ∙ v.crew;
  settled = v.settled;
  kept = λ q. v.kept (ap is_open e);
  one = v.one;
  excused = v.excused;
  gone = λ r q. cc;
}
Move-IsSound c n {s} (abandon d e h) v = record {
  conserved = λ f. omega (arith, v.conserved f, ap (in_loop f) e);
  crew = v.crew;
  settled = v.settled;
  kept = λ q. cc;
  one = omega (arith, ap length (v.kept (ap is_open e)));
  excused = λ q. cc (h, q);
  gone = λ r q. cc;
}
Move-IsSound c n {s} (handle d ws w t) v = record {
  conserved = λ f. omega (arith, v.conserved f, in_hands-Turns f t);
  crew = length-Turns t ∙ v.crew;
  settled = ((handle_delivery_settles_once c d.body w).0, v.settled);
  kept = v.kept;
  one = v.one;
  excused = v.excused;
  gone = λ r q. absurd (Turns-not_exited t (λ x. cc) (v.gone r q));
}
Move-IsSound c n {s} (leave_cancelled ws h t) v = left c n t v
Move-IsSound c n {s} (leave_closed ws h t) v = left c n t v
Move-IsSound c n {s} (finish r e all) v = record {
  conserved = λ f. omega (arith, v.conserved f, ap (in_loop f) e);
  crew = v.crew;
  settled = v.settled;
  kept = λ q. cc;
  one = v.one;
  excused = v.excused;
  gone = λ x q. all;
}

Outside-IsSound : (n : ℕ) {s t : Pool} → Outside s t → IsSound n s → IsSound n t
Outside-IsSound n (arrive d h) v = record {
  conserved = v.conserved;
  crew = v.crew;
  settled = v.settled;
  kept = v.kept;
  one = v.one;
  excused = v.excused;
  gone = v.gone;
}
Outside-IsSound n close v = record {
  conserved = v.conserved;
  crew = v.crew;
  settled = v.settled;
  kept = v.kept;
  one = v.one;
  excused = v.excused;
  gone = v.gone;
}
Outside-IsSound n cancel v = record {
  conserved = v.conserved;
  crew = v.crew;
  settled = v.settled;
  kept = v.kept;
  one = v.one;
  excused = λ q. cc;
  gone = v.gone;
}

-- In every state that Run can reach, what was received from the channel is what was handled, what a
-- worker or the loop has in hand, and what was dropped; the number of workers is the concurrency;
-- every handled delivery was settled exactly once; and at most one delivery is dropped, at the end
-- of a Run that was cancelled.
pub Reach-IsSound : (c : Consumer) (n : ℕ) {s : Pool} → Reach c (started n) s → IsSound n s
Reach-IsSound c n here = started-IsSound n
Reach-IsSound c n (move r m) = Move-IsSound c n m (Reach-IsSound c n r)
Reach-IsSound c n (meet r o) = Outside-IsSound n o (Reach-IsSound c n r)

-- When Run has returned, every delivery that it received has been handled, and so settled exactly
-- once, but for at most one that was dropped because the context was cancelled.
pub returned_handled :
    (c : Consumer) (n : ℕ) (s : Pool) (r : Result (Unit {0}))
    → Reach c (started n) s
    → s.loop ≡ returned r
    → ((f : Delivery → ℕ) → total f s.taken ≡ total_handled f s.handled + total f s.dropped)
      × All (λ e. settlements e.1 ≡ 1) s.handled
      × (length s.dropped ≤ 1)
      × (s.cancelled ≡ false → s.dropped ≡ [])
returned_handled c n s r reach e =
    let v = Reach-IsSound c n reach in
    (
      (λ f.
          omega (arith, v.conserved f, ap (in_loop f) e, in_hands-exited f s.workers (v.gone r e))),
      v.settled,
      v.one,
      v.excused,
    )
