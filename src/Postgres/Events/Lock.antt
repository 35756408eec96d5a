-- ===== src/Postgres/Events/Lock.antt =====
-- ClaimPendingOutboxEvents as a lock on an event.
use mentor_ia_worker.Prelude.{
  ℕ, ◌<◌, ◌≡◌, refl, sym, subst, ◌∙◌, Bool, true, false, not, ◌&&◌, some, ℤ, arith, update_where,
  any, All, take-All, sort_by-All, ◌==◌,
}
use mentor_ia_worker.Postgres.Tables.{
  Server, OutboxRow, event_at, pending, processing, published, failed,
}
use mentor_ia_worker.Postgres.Rows.{Repository}
use mentor_ia_worker.Postgres.Rows.Laws.{
  KeysUnique, row_at-key, row_at-update_where, KeysUnique-update_where,
}
use mentor_ia_worker.Postgres.Rows.Selection.{IsOther, select-IsOther, any-IsOther}
use mentor_ia_worker.Postgres.Session.{World}
use mentor_ia_worker.Postgres.Session.Keeps.{IsFramed, Keeps, StatementKeeps, keeps_rules}
use mentor_ia_worker.Postgres.Schedule.{read_rows}
use mentor_ia_worker.Postgres.Events.{
  is_available, available_events, dispatched, is_among, claim_events, claim_body,
  claim_pending_outbox_events,
}

abbrev pub event_key : OutboxRow → ℕ
event_key r = r.id

-- An event that no dispatcher may take at the given time.
pub data IsOut (now : ℕ) (locked : ℕ → Bool) (r : OutboxRow) : Type 0 where
  -- another transaction has its row
  locked_row : locked r.id ≡ true → IsOut now locked r
  -- another dispatcher has it
  held : (t : ℕ) → r.status ≡ processing → r.lock_expira_em ≡ some t → now < t → IsOut now locked r
  -- its next attempt is not due
  waiting : r.status ≡ pending → now < r.proxima_tentativa_em → IsOut now locked r
  -- it has ended
  done : r.status ≡ published → IsOut now locked r
  given_up : r.status ≡ failed → IsOut now locked r

abbrev is_candidate : ℕ → (ℕ → Bool) → OutboxRow → Bool
is_candidate now locked r = is_available now r && not (locked r.id)

IsOut-is_candidate :
    (now : ℕ) (locked : ℕ → Bool) (r : OutboxRow)
    → IsOut now locked r
    → is_candidate now locked r ≡ false
IsOut-is_candidate now locked r (locked_row h) = ground arith
IsOut-is_candidate now locked r (held t s e h) = rw (s, e) (ground arith)
IsOut-is_candidate now locked r (waiting s h) = rw s (ground arith)
IsOut-is_candidate now locked r (done s) = rw s refl
IsOut-is_candidate now locked r (given_up s) = rw s refl

available-IsOther :
    (limit : ℕ) (w : World) (i : ℕ) (row : OutboxRow)
    → KeysUnique event_key w.db.outbox_eventos
    → event_at i w.db.outbox_eventos ≡ some row
    → is_candidate w.now w.locked row ≡ false
    → All (IsOther event_key i) (available_events limit w)
unfolding available_events
available-IsOther limit w i row u e h = take-All (IsOther event_key i) limit _ (
    sort_by-All (IsOther event_key i) _ _
      (select-IsOther event_key (is_candidate w.now w.locked) i row w.db.outbox_eventos u e h))

-- The worlds in which the row of the event is as it was.
abbrev Still : World → ℕ → OutboxRow → World → Type 0
Still w i row v =
    (event_at i v.db.outbox_eventos ≡ some row)
    × KeysUnique event_key v.db.outbox_eventos
    × (v.now ≡ w.now)
    × (v.locked ≡ w.locked)

Still-framed :
    (server : Server) (w : World) (i : ℕ) (row : OutboxRow) → IsFramed server (Still w i row)
Still-framed server w i row = record {
  calls = λ v os h. h;
  draws = λ v h. h;
  rollback = λ u v hu hv. (hu.0, hu.1, hv.2, hv.3);
}

module _ (w : World) (i : ℕ) (row : OutboxRow) (out : IsOut w.now w.locked row) where
  claim_events-kept :
      (limit token seconds : ℕ) → StatementKeeps (Still w i row) (claim_events limit token seconds)
  unfolding claim_events
  claim_events-kept limit token seconds = record { at = λ v h. (same v h, unique v h, h.2, h.3) }
    where
      passed_over : (v : World) → Still w i row v → is_among (available_events limit v) row ≡ false
      passed_over v h =
          subst (λ k. any (λ s. s.id == k) (available_events limit v) ≡ false)
            (sym (row_at-key event_key i row v.db.outbox_eventos h.0))
            (any-IsOther event_key i (available_events limit v) (
              available-IsOther limit v i row h.1 h.0
                (rw (h.2, h.3) (IsOut-is_candidate w.now w.locked row out))))

      same :
          (v : World)
          → Still w i row v
          → event_at i (
              update_where
                (is_among (available_events limit v))
                (dispatched v.now token seconds)
                v.db.outbox_eventos)
            ≡ some row
      same v h =
          row_at-update_where event_key (is_among (available_events limit v))
            (dispatched v.now token seconds) i v.db.outbox_eventos (λ r. refl)
          ∙ rw h.0 (rw (passed_over v h) refl)

      unique :
          (v : World)
          → Still w i row v
          → KeysUnique event_key (
              update_where
                (is_among (available_events limit v))
                (dispatched v.now token seconds)
                v.db.outbox_eventos)
      unique v h =
          KeysUnique-update_where event_key (is_among (available_events limit v))
            (dispatched v.now token seconds) v.db.outbox_eventos (λ r. refl) h.1

  read_rows-kept : StatementKeeps (Still w i row) read_rows
  unfolding read_rows
  read_rows-kept = record { at = λ v h. h }

  claim_body-kept :
      (r : Repository) (limit seconds : ℕ) → Keeps (Still w i row) (claim_body r limit seconds)
  unfolding claim_body
  claim_body-kept r limit seconds =
      search (keeps_rules, Still-framed r.server w i row, claim_events-kept, read_rows-kept) depth 9

  claim_pending-kept :
      (r : Repository) (limit : ℕ) (lock : ℤ)
      → Keeps (Still w i row) (claim_pending_outbox_events r limit lock)
  unfolding claim_pending_outbox_events
  claim_pending-kept r limit lock =
      search (keeps_rules, Still-framed r.server w i row, claim_body-kept) depth 9

-- While an event is out (another transaction has its row, another dispatcher holds its lock, its next
-- attempt is not due, or it has ended), ClaimPendingOutboxEvents leaves its row as it is, whatever
-- calls of the database fail.
pub claim_pending_outbox_events_exclusive :
    (r : Repository) (limit : ℕ) (lock : ℤ) (w : World) (i : ℕ) (row : OutboxRow)
    → KeysUnique event_key w.db.outbox_eventos
    → event_at i w.db.outbox_eventos ≡ some row
    → IsOut w.now w.locked row
    → event_at i (claim_pending_outbox_events r limit lock w).1.db.outbox_eventos ≡ some row
claim_pending_outbox_events_exclusive r limit lock w i row unique found out =
    ((claim_pending-kept w i row out r limit lock).at w (found, unique, refl, refl)).0
