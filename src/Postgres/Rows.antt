-- ===== src/Postgres/Rows.antt =====
-- internal/insights/postgres/repository.go: the repository, and the parts that its statements share.
pub mod Laws
pub mod Selection
pub mod Lookup
use mentor_ia_worker.Prelude.{
  ℕ, ◌/◌, Bool, false, ◌&&◌, Option, none, some, List, [], ◌∷◌, map, ℤ, pos_part, leb, ◌==◌, select,
  update_where,
}
use mentor_ia_worker.Text.{Bytes}
use mentor_ia_worker.Domain.{Codec}
use mentor_ia_worker.Domain.Errors.{Result, ok, err, sentinel, no_rows}
use mentor_ia_worker.Postgres.Tables.{Server, InsightJob}
use mentor_ia_worker.Postgres.Session.{Statement}

-- Repository: `lease_duration` is a time.Duration, in nanoseconds. The pool is the world.
pub record Repository : Type 0 where
  pub server : Server
  pub codec : Codec
  pub lease_duration : ℤ

-- int(d.Seconds()) of a duration that is not negative.
abbrev pub whole_seconds : ℤ → ℕ
whole_seconds d = pos_part d / 1000000000

-- `WHERE id = $1 AND aluno_id = $2`
abbrev pub has_ids : ℕ → ℕ → InsightJob → Bool
has_ids i a j = j.id == i && j.aluno_id == a

abbrev pub is_past : ℕ → Option ℕ → Bool
is_past now none = false
is_past now (some t) = leb t now

-- `RETURNING …` of an UPDATE that is read with QueryRow: the first changed row, or ErrNoRows.
abbrev pub first_row {ℓ} : {A : Type ℓ} → List A → Result A
first_row [] = err (sentinel no_rows)
first_row (x ∷ _) = ok x

-- An UPDATE of the jobs that pass a test, and its first row.
unfoldable pub update_jobs : (InsightJob → Bool) → (InsightJob → InsightJob) → Statement InsightJob
update_jobs p f w = (
  first_row (map f (select p w.db.insight_jobs)),
  record w.db { insight_jobs = update_where p f w.db.insight_jobs },
)

-- A statement whose parameters are converted first; an ill-formed one fails it.
abbrev pub with_param {ℓ κ} : {A : Type ℓ} {B : Type κ} → Result A → (A → Statement B) → Statement B
with_param (ok a) s w = s a w
with_param (err e) s w = (err e, w.db)
