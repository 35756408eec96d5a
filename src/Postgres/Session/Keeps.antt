-- ===== src/Postgres/Session/Keeps.antt =====
-- Predicates that a call keeps whatever the outcomes of the calls of the database, one rule for
-- each way to build an action.
use mentor_ia_worker.Prelude.{suc, String, Bool, true, false, List, if◌then◌else◌}
use mentor_ia_worker.Domain.Errors.{Error, Result, ok, err}
use mentor_ia_worker.Postgres.Tables.{Database, Server}
use mentor_ia_worker.Postgres.Session.{
  World, Action, Statement, Outcome, works, fails, reply_lost, called, first_outcome, answer,
  statement, commit, finish, begin, transaction, continue, ◌>>=◌, ◌>>◌, labelled, attempt, pure,
  throw, require, of_result, draw,
}

-- A predicate that does not look at the calls to come, that a drawn uuid keeps, and that holds
-- again when the tables of an earlier world are put back.
pub record IsFramed (server : Server) (P : World → Type 0) : Type 0 where
  pub calls : (w : World) (os : List Outcome) → P w → P (record w { calls = os })
  pub draws : (w : World) → P w → P (record w { drawn = suc w.drawn })
  pub rollback : (v w : World) → P v → P w → P (record w { db = v.db })

pub record Keeps {ℓ} {A : Type ℓ} (P : World → Type 0) (act : Action A) : Type ℓ where
  pub at : (w : World) → P w → P (act w).1

-- What a statement does to the tables keeps the predicate.
pub record StatementKeeps {ℓ} {A : Type ℓ} (P : World → Type 0) (s : Statement A) : Type ℓ where
  pub at : (w : World) → P w → P (record w { db = (s w).1 })

module _ {ℓ} {A : Type ℓ} {P : World → Type 0} where
  pub Keeps-pure : (a : A) → Keeps P (pure a)
  Keeps-pure a = record { at = λ w h. h }

  pub Keeps-throw : (e : Error) → Keeps P (throw {A = A} e)
  Keeps-throw e = record { at = λ w h. h }

  pub Keeps-of_result : (r : Result A) → Keeps P (of_result r)
  Keeps-of_result r = record { at = λ w h. h }

  pub Keeps-labelled : (m : String) (act : Action A) → Keeps P act → Keeps P (labelled m act)
  Keeps-labelled m act k = record { at = λ w h. k.at w h }

  pub Keeps-attempt : (act : Action A) → Keeps P act → Keeps P (attempt act)
  Keeps-attempt act k = record { at = λ w h. k.at w h }

  pub Keeps-if : (b : Bool) (m n : Action A) → Keeps P m → Keeps P n → Keeps P (if b then m else n)
  Keeps-if true m n km kn = km
  Keeps-if false m n km kn = kn

pub Keeps-require : {P : World → Type 0} (b : Bool) (e : Error) → Keeps P (require b e)
Keeps-require true e = record { at = λ w h. h }
Keeps-require false e = record { at = λ w h. h }

module _ {ℓ κ} {A : Type ℓ} {B : Type κ} {P : World → Type 0} where
  Keeps-continue :
      (r : Result A) (w : World) (f : A → Action B)
      → ((a : A) → Keeps P (f a))
      → P w
      → P (continue r w f).1
  Keeps-continue (ok a) w f k h = (k a).at w h
  Keeps-continue (err e) w f k h = h

  pub Keeps-bind :
      (m : Action A) (f : A → Action B) → Keeps P m → ((a : A) → Keeps P (f a)) → Keeps P (m >>= f)
  Keeps-bind m f km kf = record { at = λ w h. Keeps-continue (m w).0 (m w).1 f kf (km.at w h) }

module _ {P : World → Type 0} (server : Server) (framed : IsFramed server P) where
  pub Keeps-draw : Keeps P (draw server)
  Keeps-draw = record { at = λ w h. framed.draws w h }

pub Keeps-then {ℓ} :
    {B : Type ℓ} {P : World → Type 0} (m : Action (Unit {0})) (n : Action B)
    → Keeps P m
    → Keeps P n
    → Keeps P (m >> n)
Keeps-then m n km kn = Keeps-bind m (λ _. n) km (λ _. kn)

module _ {ℓ} {A : Type ℓ} {P : World → Type 0} (server : Server) (framed : IsFramed server P) where
  answer-keeps :
      (o : Outcome) (r : Result A × Database) (w : World)
      → P w
      → P (record w { db = r.1 })
      → P (answer o r w).1
  answer-keeps works r w h k = k
  answer-keeps (fails e) r w h k = h
  answer-keeps (reply_lost e) r w h k = k

  pub Keeps-statement : (s : Statement A) → StatementKeeps P s → Keeps P (statement s)
  unfolding statement
  Keeps-statement s k = record {
    at = λ w h.
        answer-keeps (first_outcome w.calls) (s w) (called w) (framed.calls w _ h)
          (framed.calls (record w { db = (s w).1 }) _ (k.at w h));
  }

  finish-keeps :
      (n : String) (v : World) (r : Result A × World) → P v → P r.1 → P (finish n v.db r).1
  unfolding finish commit
  finish-keeps n v (ok a, w) hv hw = at_commit (first_outcome w.calls)
    where
      at_commit : (o : Outcome) → P (commit n v.db a o (called w)).1
      at_commit works = framed.calls w _ hw
      at_commit (fails e) = framed.rollback v (called w) hv (framed.calls w _ hw)
      at_commit (reply_lost e) = framed.calls w _ hw
  finish-keeps n v (err e, w) hv hw = framed.rollback v w hv hw

  pub Keeps-transaction :
      (m n : String) (body : Action A) → Keeps P body → Keeps P (transaction m n body)
  unfolding transaction begin
  Keeps-transaction m n body k = record {
    at = λ w h. at_begin (called w) (framed.calls w _ h) (first_outcome w.calls);
  }
    where
      at_begin : (w : World) → P w → (o : Outcome) → P (begin m n body o w).1
      at_begin w h works = finish-keeps n w (body w) h (k.at w h)
      at_begin w h (fails e) = h
      at_begin w h (reply_lost e) = h

pub ruleset keeps_rules = (
  Keeps-pure, Keeps-throw, Keeps-of_result, Keeps-labelled, Keeps-attempt, Keeps-if, Keeps-require,
  Keeps-bind, Keeps-then, Keeps-draw, Keeps-statement, Keeps-transaction,
)
