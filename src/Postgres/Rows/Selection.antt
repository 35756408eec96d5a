-- ===== src/Postgres/Rows/Selection.antt =====
-- Selections that leave the row of a key out.
use mentor_ia_worker.Prelude.{
  ℕ, ◌≡◌, refl, Bool, false, none, some, List, [], ◌∷◌, arith, ◌==◌, select, any, All,
}
use mentor_ia_worker.Postgres.Rows.Laws.{row_at, KeysUnique}

module _ {A : Type 0} (key : A → ℕ) where
  abbrev pub IsOther : ℕ → A → Type 0
  IsOther i r = (key r == i) ≡ false

  missing-IsOther :
      (p : A → Bool) (i : ℕ) (rows : List A)
      → row_at key i rows ≡ none
      → All (IsOther i) (select p rows)
  missing-IsOther p i [] h = tt
  missing-IsOther p i (x ∷ rows) h = ground (arith, missing-IsOther p i rows)

  -- The rows that pass a test which the row of a key does not pass have other keys.
  pub select-IsOther :
      (p : A → Bool) (i : ℕ) (row : A) (rows : List A)
      → KeysUnique key rows
      → row_at key i rows ≡ some row
      → p row ≡ false
      → All (IsOther i) (select p rows)
  select-IsOther p i row [] u e h = tt
  select-IsOther p i row (x ∷ rows) u e h =
      ground (arith, missing-IsOther p i rows, select-IsOther p i row rows u.1)

  pub any-IsOther :
      (i : ℕ) (rows : List A) → All (IsOther i) rows → any (λ s. key s == i) rows ≡ false
  any-IsOther i [] h = refl
  any-IsOther i (x ∷ rows) h = rw h.0 (any-IsOther i rows h.1)
