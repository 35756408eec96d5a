-- ===== src/Dispatcher/Delivery.antt =====
-- One round of the outbox dispatcher as a sequence of deliveries.
use mentor_ia_worker.Prelude.{
  ℕ, suc, ◌+◌, ◌≡◌, refl, Bool, true, false, List, [], ◌∷◌, arith, sym, subst, ◌∙◌, if◌then◌else◌,
  pos_part,
}
use mentor_ia_worker.Domain.{OutboxEvent}
use mentor_ia_worker.Domain.Errors.{Error, Result, ok, err}
use mentor_ia_worker.Postgres.Session.{World}
use mentor_ia_worker.Dispatcher.{
  Dispatcher, publish, after_publish, dispatch_event, dispatch_all, claimed_events, dispatch,
}

-- What happens to the claimed events, one after the other, and how many of them count as published.
pub data Delivers (d : Dispatcher) : List OutboxEvent → World → ℕ → World → Type 0 where
  finished : (w : World) → Delivers d [] w 0 w
  -- the broker confirmed the event, and it is marked as published
  published :
      (e : OutboxEvent) (es : List OutboxEvent) (w v u x : World) (t s : Unit {0}) (n : ℕ)
      → publish d e w ≡ (ok t, v)
      → d.store.marks_published e v ≡ (ok s, u)
      → Delivers d es u n x
      → Delivers d (e ∷ es) w (suc n) x
  -- the broker confirmed the event, but the mark failed: the event will be sent again
  unmarked :
      (e : OutboxEvent) (es : List OutboxEvent) (w v u x : World) (t : Unit {0}) (f : Error) (n : ℕ)
      → publish d e w ≡ (ok t, v)
      → d.store.marks_published e v ≡ (err f, u)
      → Delivers d es u n x
      → Delivers d (e ∷ es) w n x
  -- the publication failed, and the event is marked with its error
  refused :
      (e : OutboxEvent) (es : List OutboxEvent) (w v u x : World) (f : Error) (r : Result Bool)
      (n : ℕ)
      → publish d e w ≡ (err f, v)
      → d.store.marks_failed e d.max_attempts f v ≡ (r, u)
      → Delivers d es u n x
      → Delivers d (e ∷ es) w n x

module _ (d : Dispatcher) where
  abbrev Counts : List OutboxEvent → World → ℕ → ℕ × World → Type 0
  Counts es w c (k, x) = (n : ℕ) × (k ≡ c + n) × Delivers d es w n x

  marked-Counts :
      (e : OutboxEvent) (es : List OutboxEvent) (w v u : World) (t : Unit {0}) (c : ℕ)
      (r : Result (Unit {0}))
      → publish d e w ≡ (ok t, v)
      → d.store.marks_published e v ≡ (r, u)
      → ((k : ℕ) → Counts es u k (dispatch_all d es k u))
      → Counts
          (e ∷ es)
          w
          c
          (dispatch_all d es (if elim r [ ok _ ↦ true | err _ ↦ false ] then suc c else c) u)
  marked-Counts e es w v u t c (ok s) p q rest =
      let (n, count, delivers) = rest (suc c) in
      (suc n, count ∙ omega arith, published e es w v u _ t s n p q delivers)
  marked-Counts e es w v u t c (err f) p q rest =
      let (n, count, delivers) = rest c in (n, count, unmarked e es w v u _ t f n p q delivers)

  after_publish-Counts :
      (e : OutboxEvent) (es : List OutboxEvent) (w v : World) (c : ℕ) (r : Result (Unit {0}))
      → publish d e w ≡ (r, v)
      → ((k : ℕ) (u : World) → Counts es u k (dispatch_all d es k u))
      → let (done, u) = after_publish d e r v in
        Counts (e ∷ es) w c (dispatch_all d es (if done then suc c else c) u)
  unfolding after_publish
  after_publish-Counts e es w v c (ok t) p rest =
      marked-Counts e es w v (d.store.marks_published e v).1 t c (d.store.marks_published e v).0 p
        refl (λ k. rest k (d.store.marks_published e v).1)
  after_publish-Counts e es w v c (err f) p rest =
      let (r, u) = d.store.marks_failed e d.max_attempts f v in
      let (n, count, delivers) = rest c u in (n, count, refused e es w v u _ f r n p refl delivers)

  dispatch_all-Counts :
      (es : List OutboxEvent) (w : World) (c : ℕ) → Counts es w c (dispatch_all d es c w)
  unfolding dispatch_all dispatch_event
  dispatch_all-Counts [] w c = (0, omega arith, finished w)
  dispatch_all-Counts (e ∷ es) w c =
      after_publish-Counts e es w (publish d e w).1 c (publish d e w).0 refl
        (λ k u. dispatch_all-Counts es u k)

-- A round delivers every event that it claims, in order and whatever happens to the others: an event
-- is marked as published only after its publication returned without an error, it is marked with
-- the error otherwise, and the count is that of the events marked as published.
pub dispatch-Delivers :
    (d : Dispatcher) (w v : World) (events : List OutboxEvent)
    → d.store.claims (pos_part d.batch_size) d.lock w ≡ (ok events, v)
    → Delivers d events v (dispatch d w).0 (dispatch d w).1
unfolding dispatch claimed_events
dispatch-Delivers d w v events h =
    let (n, count, delivers) = dispatch_all-Counts d events v 0 in
    subst (λ q. Delivers d events v (claimed_events d q.0 q.1).0 (claimed_events d q.0 q.1).1)
      (sym h)
      (subst (λ k. Delivers d events v k (dispatch_all d events 0 v).1) (sym (count ∙ omega arith))
        delivers)
