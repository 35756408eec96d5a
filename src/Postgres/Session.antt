-- ===== src/Postgres/Session.antt =====
-- Calls of the database through pgx: every call may fail before it takes effect, or take effect
-- and lose its reply. A transaction works on the tables of its own and publishes them at commit;
-- the deferred Rollback drops them on every other way out.
pub mod Laws
pub mod Keeps
use mentor_ia_worker.Prelude.{ℕ, zero, suc, String, Bool, true, false, List, [], ◌∷◌, if◌then◌else◌}
use mentor_ia_worker.Domain.Errors.{Error, wrap, Result, ok, err}
use mentor_ia_worker.Postgres.Tables.{Database, Server}

-- What happens to the next call. A list of outcomes that has run out stands for calls that work.
pub data Outcome : Type 0 where
  works : Outcome
  fails reply_lost : Error → Outcome

-- The tables; NOW() in milliseconds; how many uuids were drawn; the rows that other transactions
-- have locked; the outcomes of the calls to come.
pub record World : Type 0 where
  pub db : Database
  pub now : ℕ
  pub drawn : ℕ
  pub locked : ℕ → Bool
  pub calls : List Outcome

abbrev pub Action {ℓ} : Type ℓ → Type ℓ
Action A = World → Result A × World

-- A statement of SQL, given NOW().
abbrev pub Statement {ℓ} : Type ℓ → Type ℓ
Statement A = World → Result A × Database

abbrev pub first_outcome : List Outcome → Outcome
first_outcome [] = works
first_outcome (o ∷ _) = o

abbrev pub later_outcomes : List Outcome → List Outcome
later_outcomes [] = []
later_outcomes (_ ∷ os) = os

abbrev pub called : World → World
called w = record w { calls = later_outcomes w.calls }

module _ {ℓ} {A : Type ℓ} where
  abbrev pub pure : A → Action A
  pure a w = (ok a, w)

  abbrev pub throw : Error → Action A
  throw e w = (err e, w)

  -- `if err != nil { return fmt.Errorf("…%w", err) }`
  abbrev pub relabel : String → Result A → Result A
  relabel m (ok a) = ok a
  relabel m (err e) = err (wrap m e)

  abbrev pub labelled : String → Action A → Action A
  labelled m act w = let (r, w') = act w in (relabel m r, w')

  -- The error as a value, for code that looks at it.
  abbrev pub attempt : Action A → Action (Result A)
  attempt act w = let (r, w') = act w in (ok r, w')

  abbrev pub answer : Outcome → Result A × Database → World → Result A × World
  answer works (r, db) w = (r, record w { db = db })
  answer (fails e) _ w = (err e, w)
  answer (reply_lost e) (_, db) w = (err e, record w { db = db })

  -- pool.Exec, pool.QueryRow, tx.Exec, tx.QueryRow and tx.Query
  unfoldable pub statement : Statement A → Action A
  statement s w = answer (first_outcome w.calls) (s w) (called w)

  commit : String → Database → A → Outcome → World → Result A × World
  commit m before a works w = (ok a, w)
  commit m before a (fails e) w = (err (wrap m e), record w { db = before })
  commit m before a (reply_lost e) w = (err (wrap m e), w)

  finish : String → Database → Result A × World → Result A × World
  unfolding commit
  finish m before (ok a, w) = commit m before a (first_outcome w.calls) (called w)
  finish m before (err e, w) = (err e, record w { db = before })

  begin : String → String → Action A → Outcome → World → Result A × World
  unfolding finish
  begin m n body works w = finish n w.db (body w)
  begin m n body (fails e) w = (err (wrap m e), w)
  begin m n body (reply_lost e) w = (err (wrap m e), w)

  -- pool.Begin, the calls of the body, and tx.Commit, with the labels of the two errors.
  pub transaction : String → String → Action A → Action A
  unfolding begin
  transaction m n body w = begin m n body (first_outcome w.calls) (called w)

module _ {ℓ κ} {A : Type ℓ} {B : Type κ} where
  abbrev pub continue : Result A → World → (A → Action B) → Result B × World
  continue (ok a) w f = f a w
  continue (err e) w f = (err e, w)

  infixl 5 ◌>>=◌
  abbrev pub ◌>>=◌ : Action A → (A → Action B) → Action B
  ◌>>=◌ m f w = let (r, w') = m w in continue r w' f

infixl 5 ◌>>◌
abbrev pub ◌>>◌ {ℓ} : {B : Type ℓ} → Action (Unit {0}) → Action B → Action B
m >> k = m >>= λ _. k

-- `if !test { return err }`
abbrev pub require : Bool → Error → Action (Unit {0})
require true e w = (ok tt, w)
require false e w = (err e, w)

abbrev pub of_result {ℓ} : {A : Type ℓ} → Result A → Action A
of_result r w = (r, w)

-- uuid.NewString
abbrev pub draw : Server → Action ℕ
draw server w = (ok (server.new_uuid w.drawn), record w { drawn = suc w.drawn })
