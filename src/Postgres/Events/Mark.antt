-- ===== src/Postgres/Events/Mark.antt =====
-- MarkOutboxEventPublished: only the holder of an event marks it.
use mentor_ia_worker.Prelude.{
  ℕ, ◌≡◌, ◌≢◌, inl, inr, select, [], Option, Bool-cases, update_where-none, refl, sym, subst, ap,
  ◌∙◌, true, false, some, arith, ltb,
}
use mentor_ia_worker.Domain.{OutboxEvent}
use mentor_ia_worker.Domain.Errors.{ok, sentinel, dispatch_lost}
use mentor_ia_worker.Postgres.Tables.{Server, Database, OutboxRow, event_at}
use mentor_ia_worker.Postgres.Rows.Laws.{KeysUnique, select-key, some_injective, row_at-updated}
use mentor_ia_worker.Postgres.Session.{World, require}
use mentor_ia_worker.Postgres.Session.Laws.{step-ok, require-ok}
use mentor_ia_worker.Postgres.Session.Keeps.{Keeps, StatementKeeps, keeps_rules}
use mentor_ia_worker.Postgres.Begin.Exclusive.{SameTables, SameTables-framed}
use mentor_ia_worker.Postgres.Save.{holds_token}
use mentor_ia_worker.Postgres.Events.{
  is_held, published_row, publish_row, mark_outbox_event_published,
}
use mentor_ia_worker.Postgres.Events.Lock.{event_key}

publish_row-ok :
    (event : OutboxEvent) (w : World) (n : ℕ) {db : Database}
    → KeysUnique event_key w.db.outbox_eventos
    → publish_row event w ≡ (ok n, db)
    → ltb 0 n ≡ true
    → (row : OutboxRow) × (event_at event.id w.db.outbox_eventos ≡ some row)
      × (is_held event row ≡ true)
      × (event_at event.id db.outbox_eventos ≡ some (published_row w.now row))
unfolding publish_row
publish_row-ok event w n {db} unique h touched =
    let (row, found, mine, after) =
      row_at-updated event_key (is_held event) (published_row w.now) event.id w.db.outbox_eventos
        only (λ r. refl) unique
        (subst (λ k. ltb 0 k ≡ true) (sym (counted (ap (λ q. q.0) h))) touched) in
    (row, found, mine, ap (λ q. event_at event.id q.1.outbox_eventos) (sym h) ∙ after)
  where
    only : (r : OutboxRow) → is_held event r ≡ true → r.id ≡ event.id
    only r q = ground arith

    counted : {a b : ℕ} → ok a ≡ ok b → a ≡ b
    counted q = cc

-- What a mark of success is worth: the event was held under the token of the claim, and it is
-- published now.
pub mark_outbox_event_published_held :
    (event : OutboxEvent) (w w' : World)
    → KeysUnique event_key w.db.outbox_eventos
    → mark_outbox_event_published event w ≡ (ok tt, w')
    → (row : OutboxRow) × (event_at event.id w.db.outbox_eventos ≡ some row)
      × (is_held event row ≡ true)
      × (event_at event.id w'.db.outbox_eventos ≡ some (published_row w.now row))
unfolding mark_outbox_event_published
mark_outbox_event_published_held event w w' unique h =
    let (n, v, e, frame, rest) =
      step-ok "falha ao marcar evento de outbox como publicado: " (publish_row event)
        (λ affected. require (ltb 0 affected) (sentinel dispatch_lost)) w w' tt h in
    let (touched, same) = require-ok (ltb 0 n) (sentinel dispatch_lost) v w' tt rest in
    let (row, found, mine, after) = publish_row-ok event w n unique e touched in
    (row, found, mine, ap (λ x. event_at event.id x.db.outbox_eventos) (sym same) ∙ after)

publish_row-missed :
    (event : OutboxEvent) (v : World) (row : OutboxRow)
    → KeysUnique event_key v.db.outbox_eventos
    → event_at event.id v.db.outbox_eventos ≡ some row
    → is_held event row ≡ false
    → (publish_row event v).1 ≡ v.db
unfolding publish_row
publish_row-missed event v row unique found not_held =
    rw (update_where-none (is_held event) (published_row v.now) v.db.outbox_eventos nothing) refl
  where
    only : (r : OutboxRow) → is_held event r ≡ true → r.id ≡ event.id
    only r q = ground arith

    nothing : select (is_held event) v.db.outbox_eventos ≡ []
    nothing =
        select-key event_key (is_held event) event.id v.db.outbox_eventos only unique
        ∙ rw found (rw not_held refl)

other_token-is_held :
    (event : OutboxEvent) (row : OutboxRow)
    → row.processing_token ≢ some event.processing_token
    → is_held event row ≡ false
other_token-is_held event row h = elim (Bool-cases (is_held event row)) [
  | inl t ↦ absurd (h (token row.processing_token (ground arith)))
  | inr t ↦ t
]
  where
    token :
        (o : Option ℕ)
        → holds_token event.processing_token o ≡ true
        → o ≡ some event.processing_token
    token o q = ground arith

-- A dispatcher whose lock on an event was taken over, or whose event was settled already, marks
-- nothing: no table changes, and the call does not succeed, whatever calls of the database fail.
pub mark_outbox_event_published_stale :
    (server : Server) (event : OutboxEvent) (w : World) (row : OutboxRow)
    → KeysUnique event_key w.db.outbox_eventos
    → event_at event.id w.db.outbox_eventos ≡ some row
    → row.processing_token ≢ some event.processing_token
    → ((mark_outbox_event_published event w).1.db ≡ w.db)
      × ((mark_outbox_event_published event w).0 ≢ ok tt)
mark_outbox_event_published_stale server event w row unique found other =
    ((kept.at w (refl, refl)).0, refused)
  where
    publish_kept : StatementKeeps (SameTables w) (publish_row event)
    publish_kept = record {
      at = λ v h. (
        publish_row-missed event v row
              (subst (λ d. KeysUnique event_key d.outbox_eventos) (sym h.0) unique)
              (ap (λ d. event_at event.id d.outbox_eventos) h.0 ∙ found)
              (other_token-is_held event row other)
            ∙ h.0,
        h.1,
      );
    }

    kept : Keeps (SameTables w) (mark_outbox_event_published event)
    kept =
        unfold mark_outbox_event_published in
        search (keeps_rules, SameTables-framed server w, publish_kept)

    refused : (mark_outbox_event_published event w).0 ≢ ok tt
    refused e =
        let (k, at, mine, _) =
          mark_outbox_event_published_held event w _ unique
            (λ n. (e n, (mark_outbox_event_published event w).1)) in
        cc (mine, other_token-is_held event row other, some_injective (sym found ∙ at))
