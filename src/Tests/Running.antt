-- ===== src/Tests/Running.antt =====
-- A Run of the consumer with one worker and one delivery.
use mentor_ia_worker.Prelude.{ℕ, ◌+◌, ◌≤◌, ◌<◌, ◌≡◌, refl, true, false, none, [], ◌∷◌, All, length}
use mentor_ia_worker.Domain.Errors.{Result, ok}
use mentor_ia_worker.Worker.{Consumer, handle_delivery}
use mentor_ia_worker.Worker.Settling.{settlements}
use mentor_ia_worker.Worker.Pool.{
  Delivery, Pool, idle, busy, exited, returned, started, first, stop, receive, hand_over, handle,
  leave_cancelled, finish, Reach, here, move, meet, arrive, cancel,
}
use mentor_ia_worker.Worker.Pool.Invariant.{total, total_handled, returned_handled}
use mentor_ia_worker.Worker.Pool.Shutdown.{moves_left, Move-moves_left, Moves, shutdown_returns}
use mentor_ia_worker.Tests.Fixtures.{codec, running_job, world_with}

abbrev consumer : Consumer
consumer = record { codec = codec; processor = λ m w. (ok tt, w); dead_letter_publisher = none }

abbrev delivery : Delivery
delivery = record { tag = 1; body = b'j' ∷ b'a' ∷ [] }

-- The delivery is in the hands of the worker.
abbrev working : Pool
working = record (started 1) { workers = busy delivery ∷ []; taken = delivery ∷ [] }

abbrev cancelled : Pool
cancelled = record working { cancelled = true }

abbrev ended : Pool
ended = record cancelled {
  loop = returned (ok tt);
  workers = exited ∷ [];
  handled = (delivery, (handle_delivery consumer delivery.body (world_with running_job)).0) ∷ [];
}

to_working : Reach consumer (started 1) working
to_working =
    move (move (meet here (arrive delivery refl)) (receive delivery [] refl refl))
      (hand_over delivery (busy delivery ∷ []) refl first)

to_ended : Reach consumer (started 1) ended
to_ended =
    move
      (move
        (move
          (move (meet to_working cancel)
            (handle delivery (idle ∷ []) (world_with running_job) first))
          (stop refl refl))
        (leave_cancelled (exited ∷ []) refl first))
      (finish (ok tt) refl (refl, tt))

returned_handled_example :
    ((f : Delivery → ℕ)
      → total f ended.taken ≡ total_handled f ended.handled + total f ended.dropped)
    × All (λ e. settlements e.1 ≡ 1) ended.handled
    × (length ended.dropped ≤ 1)
    × (ended.cancelled ≡ false → ended.dropped ≡ [])
returned_handled_example = returned_handled consumer 1 ended (ok tt) to_ended refl

Move-moves_left_example :
    moves_left (record cancelled { workers = idle ∷ []; handled = ended.handled })
    < moves_left cancelled
Move-moves_left_example =
    Move-moves_left consumer cancelled
      (record cancelled { workers = idle ∷ []; handled = ended.handled })
      (handle delivery (idle ∷ []) (world_with running_job) first)

shutdown_returns_example :
    (u : Pool) × (r : Result (Unit {0})) × Moves consumer cancelled u × (u.loop ≡ returned r)
shutdown_returns_example = shutdown_returns consumer (world_with running_job) cancelled refl
