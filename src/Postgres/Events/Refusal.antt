-- ===== src/Postgres/Events/Refusal.antt =====
-- MarkOutboxEventFailed: what a mark of failure is worth.
use mentor_ia_worker.Prelude.{
  ℕ, ◌+◌, ◌*◌, min, max, ◌≡◌, refl, sym, ap, ◌∙◌, Bool, true, false, Option, none, some, List, [],
  ◌∷◌, ℤ, pos, ltb_ℤ, arith, map, select, update_where, if◌then◌else◌,
}
use mentor_ia_worker.Text.{Bytes}
use mentor_ia_worker.Domain.{OutboxEvent}
use mentor_ia_worker.Domain.Errors.{
  Error, Result, ok, err, plain, sentinel, wrap, dispatch_lost, no_rows, errors_is,
}
use mentor_ia_worker.Postgres.Tables.{OutboxRow, event_at, EventStatus}
use mentor_ia_worker.Postgres.Rows.{Repository, first_row}
use mentor_ia_worker.Postgres.Rows.Laws.{KeysUnique, select-key, row_at-update_where, with_param-ok}
use mentor_ia_worker.Postgres.Session.{World, statement, attempt, throw, ◌>>=◌}
use mentor_ia_worker.Postgres.Session.Laws.{statement-ok, require-then}
use mentor_ia_worker.Postgres.Extension.{event_label}
use mentor_ia_worker.Postgres.Failure.{backoff_seconds, is_exhausted, summary_of}
use mentor_ia_worker.Postgres.Events.{
  is_held, failed_row, fail_row, failure_marked, is_failed, mark_outbox_event_failed,
}
use mentor_ia_worker.Postgres.Events.Lock.{event_key}

failure_marked-ok :
    (x : Result OutboxRow) (v w : World) (b : Bool)
    → failure_marked x v ≡ (ok b, w)
    → (row : OutboxRow) × (x ≡ ok row) × (b ≡ is_failed row.status) × (v ≡ w)
unfolding failure_marked
failure_marked-ok (ok row) v w b h = (row, refl, ground arith, ap (λ q. q.1) h)
failure_marked-ok (err e) v w b h = absurd (refused (errors_is no_rows e) h)
  where
    refused :
        (c : Bool)
        → (if c
              then throw (sentinel dispatch_lost)
              else throw (wrap "falha ao registrar falha de evento da outbox: " e))
            v
          ≡ (ok b, w)
        → ⊥
    refused true q = cc
    refused false q = cc

-- An UPDATE … RETURNING of events by a test that one identifier alone passes.
returned_row :
    (p : OutboxRow → Bool) (f : OutboxRow → OutboxRow) (i : ℕ) (rows : List OutboxRow)
    (row : OutboxRow)
    → ((e : OutboxRow) → p e ≡ true → e.id ≡ i)
    → ((e : OutboxRow) → (f e).id ≡ e.id)
    → KeysUnique event_key rows
    → first_row (map f (select p rows)) ≡ ok row
    → (e : OutboxRow) × (event_at i rows ≡ some e)
      × (p e ≡ true)
      × (row ≡ f e)
      × (event_at i (update_where p f rows) ≡ some (f e))
returned_row p f i rows row only keeps unique h =
    at_row (event_at i rows) refl
      (ap (λ l. first_row (map f l)) (sym (select-key event_key p i rows only unique)) ∙ h)
  where
    same : {x y : OutboxRow} → ok x ≡ ok y → x ≡ y
    same q = cc

    at_test :
        (x : OutboxRow) (b : Bool)
        → event_at i rows ≡ some x
        → p x ≡ b
        → first_row (map f (if b then x ∷ [] else [])) ≡ ok row
        → (e : OutboxRow) × (event_at i rows ≡ some e)
          × (p e ≡ true)
          × (row ≡ f e)
          × (event_at i (update_where p f rows) ≡ some (f e))
    at_test x true e t q =
        (x, e, t, same (sym q), row_at-update_where event_key p f i rows keeps ∙ rw e (rw t refl))
    at_test x false e t q = cc

    at_row :
        (o : Option OutboxRow)
        → event_at i rows ≡ o
        → first_row (map f (elim o [ none ↦ [] | some x ↦ if p x then x ∷ [] else [] ])) ≡ ok row
        → (e : OutboxRow) × (event_at i rows ≡ some e)
          × (p e ≡ true)
          × (row ≡ f e)
          × (event_at i (update_where p f rows) ≡ some (f e))
    at_row none e q = cc
    at_row (some x) e q = at_test x (p x) e refl q

is_failed-if : (b : Bool) → is_failed (if b then EventStatus.failed else EventStatus.pending) ≡ b
is_failed-if true = refl
is_failed-if false = refl

-- What becomes of an event whose publication failed.
pub record IsRefusal (now : ℕ) (max_attempts : ℤ) (attempts : ℕ) (before after : OutboxRow)
    : Type 0 where
  pub gives_up :
      is_exhausted max_attempts before.tentativas ≡ true → after.status ≡ EventStatus.failed
  pub waits :
      is_exhausted max_attempts before.tentativas ≡ false
      → (after.status ≡ EventStatus.pending)
        × (after.proxima_tentativa_em ≡ now + 1000 * min 300 (max 5 (attempts * 15)))
  pub token : after.processing_token ≡ none
  pub lock : after.lock_expira_em ≡ none
  pub label : event_label after ≡ event_label before

failed_row-IsRefusal :
    (now : ℕ) (max_attempts : ℤ) (summary : Bytes) (attempts : ℕ) (row : OutboxRow)
    → IsRefusal now max_attempts attempts row
        (failed_row now max_attempts summary (backoff_seconds attempts) row)
failed_row-IsRefusal now max_attempts summary attempts row = record {
  gives_up = λ t. rw t refl;
  waits = λ t. (rw t refl, rw t refl);
  token = refl;
  lock = refl;
  label = refl;
}

-- A mark of failure that returns no error found the event held under the token of the claim, and has
-- freed it. The event is given up just if its attempts are used up, which is what the call returns;
-- otherwise it is pending again, and its next attempt is 15 seconds ahead for each attempt that the
-- claim counted, from 5 to 300 seconds. What it says and about which job stays.
pub mark_outbox_event_failed_held :
    (r : Repository) (event : OutboxEvent) (max_attempts : ℤ) (failure : Error) (w w' : World)
    (b : Bool)
    → KeysUnique event_key w.db.outbox_eventos
    → mark_outbox_event_failed r event max_attempts failure w ≡ (ok b, w')
    → (row : OutboxRow) × (after : OutboxRow) × (event_at event.id w.db.outbox_eventos ≡ some row)
      × (is_held event row ≡ true)
      × (b ≡ is_exhausted max_attempts row.tentativas)
      × (event_at event.id w'.db.outbox_eventos ≡ some after)
      × IsRefusal w.now max_attempts event.attempts row after
unfolding mark_outbox_event_failed fail_row
mark_outbox_event_failed_held r event max_attempts failure w w' b unique h =
    let summary = summary_of failure in
    let change = failed_row w.now max_attempts summary (backoff_seconds event.attempts) in
    let s = fail_row r.server event max_attempts summary (backoff_seconds event.attempts) in
    let (_, rest) =
      require-then (ltb_ℤ (pos 0) max_attempts) (plain "maxAttempts deve ser maior que zero")
        (λ _. attempt (statement s) >>= failure_marked) w w' b h in
    let (row, answered, outcome, last) =
      failure_marked-ok (statement s w).0 (statement s w).1 w' b rest in
    let (q, frame) = statement-ok s w w' row (λ k. (answered k, last k)) in
    let (_, _, done) = with_param-ok (r.server.text_param summary) _ w row w'.db q in
    let (e, found, held, changed, after) =
      returned_row (is_held event) change event.id w.db.outbox_eventos row (λ x t. ground arith)
        (λ x. refl) unique (ap (λ y. y.0) done) in
    (
      e,
      change e,
      found,
      held,
      outcome
          ∙ ap (λ x. is_failed x.status) changed
          ∙ is_failed-if (is_exhausted max_attempts e.tentativas),
      ap (λ y. event_at event.id y.1.outbox_eventos) (sym done) ∙ after,
      failed_row-IsRefusal w.now max_attempts summary event.attempts e,
    )
