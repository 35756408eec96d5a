-- ===== src/Worker/Pool/Shutdown.antt =====
-- How Run comes to an end.
use mentor_ia_worker.Prelude.{
  ℕ, zero, suc, ◌+◌, ◌*◌, ◌<◌, ◌≡◌, refl, ap, ◌∙◌, ◌⊎◌, inl, inr, true, List, [], ◌∷◌, arith, All,
  length,
}
use mentor_ia_worker.Domain.Errors.{Result, ok}
use mentor_ia_worker.Postgres.Session.{World}
use mentor_ia_worker.Worker.{Consumer, handle_delivery}
use mentor_ia_worker.Worker.Pool.{
  Delivery, Hand, idle, busy, exited, Loop, receiving, sending, closing, returned, Pool, Turns,
  first, later, Move, stop, receive, run_dry, hand_over, abandon, handle, leave_cancelled,
  leave_closed, finish, jobs_closed,
}

abbrev hand_left : Hand → ℕ
hand_left exited = 0
hand_left idle = 1
hand_left (busy _) = 2

abbrev hands_left : List Hand → ℕ
hands_left [] = 0
hands_left (h ∷ hs) = hand_left h + hands_left hs

abbrev loop_left : Loop → ℕ
loop_left (returned _) = 0
loop_left (closing _) = 1
loop_left receiving = 2
loop_left (sending _) = 4

-- A bound for the moves that are left while nothing arrives.
abbrev pub moves_left : Pool → ℕ
moves_left s = 3 * length s.incoming + loop_left s.loop + hands_left s.workers

hands_left-Turns :
    {h h' : Hand} {hs hs' : List Hand}
    → Turns h h' hs hs'
    → hands_left hs' + hand_left h ≡ hands_left hs + hand_left h'
hands_left-Turns first = omega arith
hands_left-Turns (later t) = omega (arith, hands_left-Turns t)

-- Every move of Run and of its goroutines uses up the bound: with no new deliveries, Run cannot go
-- on for ever.
pub Move-moves_left : (c : Consumer) (s t : Pool) → Move c s t → moves_left t < moves_left s
Move-moves_left c s t m = by_move m
  where
    by_move : {u : Pool} → Move c s u → moves_left u < moves_left s
    by_move (stop e h) = omega (arith, ap loop_left e)
    by_move (receive d ds e i) = omega (arith, ap loop_left e, ap length i)
    by_move (run_dry e i h) = omega (arith, ap loop_left e)
    by_move (hand_over d ws e t) = omega (arith, ap loop_left e, hands_left-Turns t)
    by_move (abandon d e h) = omega (arith, ap loop_left e)
    by_move (handle d ws w t) = omega (arith, hands_left-Turns t)
    by_move (leave_cancelled ws h t) = omega (arith, hands_left-Turns t)
    by_move (leave_closed ws h t) = omega (arith, hands_left-Turns t)
    by_move (finish r e all) = omega (arith, ap loop_left e)

-- A worker that has not returned yet, or none.
some_worker :
    (hs : List Hand)
    → All (λ h. h ≡ exited) hs
      ⊎ ((ws : List Hand) × Turns idle exited hs ws)
      ⊎ ((d : Delivery) × (ws : List Hand) × Turns (busy d) idle hs ws)
some_worker [] = inl tt
some_worker (idle ∷ hs) = inr (inl (exited ∷ hs, first))
some_worker (busy d ∷ hs) = inr (inr (d, idle ∷ hs, first))
some_worker (exited ∷ hs) = elim (some_worker hs) [
  | inl all ↦ inl (refl, all)
  | inr (inl (ws, t)) ↦ inr (inl (exited ∷ ws, later t))
  | inr (inr (d, ws, t)) ↦ inr (inr (d, exited ∷ ws, later t))
]

closing_moves :
    (c : Consumer) (w : World) (s : Pool) (r : Result (Unit {0}))
    → s.loop ≡ closing r
    → (t : Pool) × Move c s t
closing_moves c w s r e = elim (some_worker s.workers) [
  | inl all ↦ (record s { loop = returned r }, finish r e all)
  | inr (inl (ws, t)) ↦ (record s { workers = ws }, leave_closed ws (ap jobs_closed e) t)
  | inr (inr (d, ws, t)) ↦ (
    record s { workers = ws; handled = (d, (handle_delivery c d.body w).0) ∷ s.handled },
    handle d ws w t,
  )
]

-- As long as a cancelled Run has not returned, it or one of its goroutines can move.
cancelled_moves :
    (c : Consumer) (w : World) (s : Pool)
    → s.cancelled ≡ true
    → (l : Loop) → s.loop ≡ l
    → ((r : Result (Unit {0})) × (s.loop ≡ returned r)) ⊎ ((t : Pool) × Move c s t)
cancelled_moves c w s h receiving e = inr (record s { loop = closing (ok tt) }, stop e h)
cancelled_moves c w s h (sending d) e =
    inr (record s { loop = closing (ok tt); dropped = d ∷ s.dropped }, abandon d e h)
cancelled_moves c w s h (closing r) e = inr (closing_moves c w s r e)
cancelled_moves c w s h (returned r) e = inl (r, e)

-- Moves with nothing from outside between them.
pub data Moves (c : Consumer) : Pool → Pool → Type 0 where
  none_left : (s : Pool) → Moves c s s
  before : {s t u : Pool} → Move c s t → Moves c t u → Moves c s u

Move-cancelled : (c : Consumer) {s t : Pool} → Move c s t → t.cancelled ≡ s.cancelled
Move-cancelled c (stop e h) = refl
Move-cancelled c (receive d ds e i) = refl
Move-cancelled c (run_dry e i h) = refl
Move-cancelled c (hand_over d ws e t) = refl
Move-cancelled c (abandon d e h) = refl
Move-cancelled c (handle d ws w t) = refl
Move-cancelled c (leave_cancelled ws h t) = refl
Move-cancelled c (leave_closed ws h t) = refl
Move-cancelled c (finish r e all) = refl

returns_within :
    (c : Consumer) (w : World) (n : ℕ) (s : Pool)
    → s.cancelled ≡ true
    → moves_left s < n
    → (u : Pool) × (r : Result (Unit {0})) × Moves c s u × (u.loop ≡ returned r)
returns_within c w zero s h lt = absurd (omega (arith, lt))
returns_within c w (suc n) s h lt = elim (cancelled_moves c w s h s.loop refl) [
  | inl (r, e) ↦ (s, r, none_left s, e)
  | inr (t, m) ↦
      let (u, r, ms, e) =
        returns_within c w n t (Move-cancelled c m ∙ h)
          (omega (arith, lt, Move-moves_left c s t m)) in
      (u, r, before m ms, e)
]

-- A Run whose context is cancelled comes to its end by its own moves, from whatever state it is
-- in: it is never stuck before it has returned.
pub shutdown_returns :
    (c : Consumer) (w : World) (s : Pool)
    → s.cancelled ≡ true
    → (u : Pool) × (r : Result (Unit {0})) × Moves c s u × (u.loop ≡ returned r)
shutdown_returns c w s h = returns_within c w (suc (moves_left s)) s h (omega arith)
