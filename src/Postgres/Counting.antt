-- ===== src/Postgres/Counting.antt =====
-- Counting the rows of a table.
use mentor_ia_worker.Prelude.{
  ℕ, suc, ◌≡◌, refl, Bool, true, false, none, List, [], ◌∷◌, ◌++◌, ◌==◌, ◌&&◌, arith, length,
  select, update_where, if◌then◌else◌,
}
use mentor_ia_worker.Domain.{OutboxType, insight_failed}
use mentor_ia_worker.Postgres.Tables.{OutboxRow, Database}
use mentor_ia_worker.Postgres.Rows.Laws.{row_at}

-- `SELECT count(*) FROM … WHERE …`
abbrev pub count {ℓ} : {A : Type ℓ} → (A → Bool) → List A → ℕ
count p rows = length (select p rows)

abbrev pub is_failed_type : OutboxType → Bool
is_failed_type insight_failed = true
is_failed_type _ = false

abbrev pub is_failure_of : ℕ → OutboxRow → Bool
is_failure_of i r = r.job_id == i && is_failed_type r.tipo

-- The events `insight_failed` of a job, and its insights.
abbrev pub failures_of : ℕ → Database → ℕ
failures_of i db = count (is_failure_of i) db.outbox_eventos

abbrev pub insights_of : ℕ → Database → ℕ
insights_of i db = count (λ r. r.job_id == i) db.insights

module _ {A : Type 0} (p : A → Bool) where
  pub count-appended :
      (xs : List A) (x : A)
      → count p (xs ++ x ∷ []) ≡ (if p x then suc (count p xs) else count p xs)
  count-appended [] x = ground arith
  count-appended (y ∷ xs) x = ground (arith, count-appended xs x)

  pub count-update_where :
      (q : A → Bool) (f : A → A) (xs : List A)
      → ((x : A) → p (f x) ≡ p x)
      → count p (update_where q f xs) ≡ count p xs
  count-update_where q f [] same = refl
  count-update_where q f (x ∷ xs) same = ground (arith, same x, count-update_where q f xs same)

pub row_at-count :
    {A : Type 0} (key : A → ℕ) (i : ℕ) (rows : List A)
    → count (λ x. key x == i) rows ≡ 0
    → row_at key i rows ≡ none
row_at-count key i [] h = refl
row_at-count key i (x ∷ rows) h = ground (arith, row_at-count key i rows)
