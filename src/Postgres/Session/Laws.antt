-- ===== src/Postgres/Session/Laws.antt =====
-- What is known of the tables after a call that worked, and after a transaction.
use mentor_ia_worker.Prelude.{String, Bool, true, false, ◌≡◌, refl, ap, ◌⊎◌, inl, inr, arith}
use mentor_ia_worker.Domain.Errors.{Error, Result, ok, err}
use mentor_ia_worker.Postgres.Tables.{Database}
use mentor_ia_worker.Postgres.Session.{
  World, Action, Statement, Outcome, works, fails, reply_lost, called, first_outcome, answer,
  statement, commit, finish, begin, transaction, continue, ◌>>=◌, labelled, pure, require,
}

-- Two worlds that differ in the tables and the calls to come at most.
pub record SameFrame (v w : World) : Type 0 where
  pub now : v.now ≡ w.now
  pub drawn : v.drawn ≡ w.drawn
  pub locked : v.locked ≡ w.locked

module _ {ℓ} {A : Type ℓ} where
  answer-ok :
      (o : Outcome) (r : Result A × Database) (w w' : World) (a : A)
      → answer o r w ≡ (ok a, w')
      → (r ≡ (ok a, w'.db)) × SameFrame w w'
  answer-ok works (r, db) w w' a h = (
    ground arith,
    record { now = ground arith; drawn = ground arith; locked = ap (λ p. p.1.locked) h },
  )
  answer-ok (fails e) r w w' a h = cc
  answer-ok (reply_lost e) (r, db) w w' a h = cc

  -- A statement that succeeded took effect.
  pub statement-ok :
      (s : Statement A) (w w' : World) (a : A)
      → statement s w ≡ (ok a, w')
      → (s w ≡ (ok a, w'.db)) × SameFrame w w'
  unfolding statement
  statement-ok s w w' a h =
      let (e, f) = answer-ok (first_outcome w.calls) (s w) (called w) w' a h in
      (e, record { now = f.now; drawn = f.drawn; locked = f.locked })

  pub labelled-ok :
      (m : String) (act : Action A) (w w' : World) (a : A)
      → labelled m act w ≡ (ok a, w')
      → act w ≡ (ok a, w')
  labelled-ok m act w w' a h = ground arith

  commit_atomic :
      (m : String) (before : Database) (a : A) (o : Outcome) (w : World)
      → ((commit m before a o w).1.db ≡ before) ⊎ ((commit m before a o w).1.db ≡ w.db)
  unfolding commit
  commit_atomic m before a works w = inr refl
  commit_atomic m before a (fails e) w = inl refl
  commit_atomic m before a (reply_lost e) w = inr refl

  -- Either the tables of before are back, or the body returned and its tables stay.
  abbrev IsAtomic : Database → Result A × World → Database → Type ℓ
  IsAtomic before r after =
      (after ≡ before) ⊎ ((a : A) × (v : World) × (r ≡ (ok a, v)) × (after ≡ v.db))

  finish-IsAtomic :
      (m : String) (before : Database) (r : Result A × World)
      → IsAtomic before r (finish m before r).1.db
  unfolding finish
  finish-IsAtomic m before (ok a, w) =
      elim (commit_atomic m before a (first_outcome w.calls) (called w)) [
        | inl e ↦ inl e
        | inr e ↦ inr (a, w, refl, e)
      ]
  finish-IsAtomic m before (err e, w) = inl refl

  begin-IsAtomic :
      (m n : String) (body : Action A) (o : Outcome) (w : World)
      → IsAtomic w.db (body w) (begin m n body o w).1.db
  unfolding begin
  begin-IsAtomic m n body works w = finish-IsAtomic n w.db (body w)
  begin-IsAtomic m n body (fails e) w = inl refl
  begin-IsAtomic m n body (reply_lost e) w = inl refl

  -- A transaction leaves the tables as they were, or as its body left them.
  pub transaction_atomic :
      (m n : String) (body : Action A) (w : World)
      → ((transaction m n body w).1.db ≡ w.db)
        ⊎ ((a : A) × (v : World) × (body (called w) ≡ (ok a, v))
            × ((transaction m n body w).1.db ≡ v.db))
  unfolding transaction
  transaction_atomic m n body w = begin-IsAtomic m n body (first_outcome w.calls) (called w)

  abbrev Published : Result A × World → A → World → Type ℓ
  Published r a w' = (v : World) × (r ≡ (ok a, v)) × (v.db ≡ w'.db) × SameFrame v w'

  commit-ok :
      (m : String) (before : Database) (b : A) (o : Outcome) (w w' : World) (a : A)
      → commit m before b o (called w) ≡ (ok a, w')
      → Published (ok b, w) a w'
  unfolding commit
  commit-ok m before b works w w' a h = (
    w,
    ap (λ p. (p.0, w)) h,
    ap (λ p. p.1.db) h,
    record {
      now = ap (λ p. p.1.now) h;
      drawn = ap (λ p. p.1.drawn) h;
      locked = ap (λ p. p.1.locked) h;
    },
  )
  commit-ok m before b (fails e) w w' a h = cc
  commit-ok m before b (reply_lost e) w w' a h = cc

  finish-ok :
      (m : String) (before : Database) (r : Result A × World) (w' : World) (a : A)
      → finish m before r ≡ (ok a, w')
      → Published r a w'
  unfolding finish
  finish-ok m before (ok b, w) w' a h = commit-ok m before b (first_outcome w.calls) w w' a h
  finish-ok m before (err e, w) w' a h = cc

  begin-ok :
      (m n : String) (body : Action A) (o : Outcome) (w w' : World) (a : A)
      → begin m n body o w ≡ (ok a, w')
      → Published (body w) a w'
  unfolding begin
  begin-ok m n body works w w' a h = finish-ok n w.db (body w) w' a h
  begin-ok m n body (fails e) w w' a h = cc
  begin-ok m n body (reply_lost e) w w' a h = cc

  -- A transaction that succeeded published what its body did.
  pub transaction-ok :
      (m n : String) (body : Action A) (w w' : World) (a : A)
      → transaction m n body w ≡ (ok a, w')
      → (v : World) × (body (called w) ≡ (ok a, v)) × (v.db ≡ w'.db) × SameFrame v w'
  unfolding transaction
  transaction-ok m n body w w' a h = begin-ok m n body (first_outcome w.calls) (called w) w' a h

module _ {ℓ κ} {A : Type ℓ} {B : Type κ} where
  pub continue-ok :
      (r : Result A) (v : World) (f : A → Action B) (w' : World) (b : B)
      → continue r v f ≡ (ok b, w')
      → (a : A) × (u : World) × ◌≡◌ {A = Result A × World} (r, v) (ok a, u) × (f a u ≡ (ok b, w'))
  continue-ok (ok a) v f w' b h = (a, v, refl, h)
  continue-ok (err e) v f w' b h = cc

  pub >>=-ok :
      (m : Action A) (f : A → Action B) (w w' : World) (b : B)
      → (m >>= f) w ≡ (ok b, w')
      → (a : A) × (v : World) × (m w ≡ (ok a, v)) × (f a v ≡ (ok b, w'))
  >>=-ok m f w w' b h = continue-ok (m w).0 (m w).1 f w' b h

pub require-ok :
    (b : Bool) (e : Error) (w w' : World) (t : Unit {0})
    → require b e w ≡ (ok t, w')
    → (b ≡ true) × (w ≡ w')
require-ok true e w w' t h = (refl, ap (λ p. p.1) h)
require-ok false e w w' t h = cc

module _ {ℓ} {A : Type ℓ} where
  pub pure-ok : (a b : A) (w w' : World) → pure a w ≡ (ok b, w') → (a ≡ b) × (w ≡ w')
  pure-ok a b w w' h = (ground arith, ap (λ p. p.1) h)

-- A block that begins with a statement, and returned.
module _ {ℓ κ} {A : Type ℓ} {B : Type κ} where
  pub step-ok :
      (m : String) (s : Statement A) (f : A → Action B) (w w' : World) (b : B)
      → (labelled m (statement s) >>= f) w ≡ (ok b, w')
      → (a : A) × (v : World) × (s w ≡ (ok a, v.db)) × SameFrame w v × (f a v ≡ (ok b, w'))
  step-ok m s f w w' b h =
      let (a, v, e, rest) = continue-ok (labelled m (statement s) w).0 (statement s w).1 f w' b h in
      let (t, frame) = statement-ok s w v a (labelled-ok m (statement s) w v a e) in
      (a, v, t, frame, rest)

module _ {ℓ} {B : Type ℓ} where
  pub require-then :
      (b : Bool) (e : Error) (f : Unit {0} → Action B) (w w' : World) (x : B)
      → (require b e >>= f) w ≡ (ok x, w')
      → (b ≡ true) × (f tt w ≡ (ok x, w'))
  require-then true e f w w' x h = (refl, h)
  require-then false e f w w' x h = cc
