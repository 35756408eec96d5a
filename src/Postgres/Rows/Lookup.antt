-- ===== src/Postgres/Rows/Lookup.antt =====
-- The row of a key before and after a table changes.
use mentor_ia_worker.Prelude.{
  ℕ, ◌≡◌, ◌⊎◌, refl, sym, ◌∙◌, inl, inr, Bool, true, false, none, some, List, [], ◌∷◌, ◌++◌, arith,
  ◌==◌, if◌then◌else◌, head?, select, update_where,
}
use mentor_ia_worker.Postgres.Rows.Laws.{row_at, row_at-update_where, some_injective}

module _ {A : Type 0} (key : A → ℕ) where
  -- A row after an UPDATE is a changed one or one that was there.
  abbrev pub IsChanged : (A → Bool) → (A → A) → A → A → Type 0
  IsChanged p f x y = ((p x ≡ true) × (y ≡ f x)) ⊎ (y ≡ x)

  -- The row of a key after an UPDATE.
  pub row_at-updating :
      (p : A → Bool) (f : A → A) (i : ℕ) (x : A) (rows : List A)
      → ((z : A) → key (f z) ≡ key z)
      → row_at key i rows ≡ some x
      → (y : A) × (row_at key i (update_where p f rows) ≡ some y) × IsChanged p f x y
  row_at-updating p f i x rows keeps e = at_test (p x) refl
    where
      after : row_at key i (update_where p f rows) ≡ some (if p x then f x else x)
      after = row_at-update_where key p f i rows keeps ∙ rw e refl

      at_test :
          (b : Bool)
          → p x ≡ b
          → (y : A) × (row_at key i (update_where p f rows) ≡ some y) × IsChanged p f x y
      at_test true t = (f x, after ∙ rw t refl, inl (t, refl))
      at_test false t = (x, after ∙ rw t refl, inr refl)

  pub row_at-append_kept :
      (i : ℕ) (x : A) (rows more : List A)
      → row_at key i rows ≡ some x
      → row_at key i (rows ++ more) ≡ some x
  row_at-append_kept i x [] more e = cc
  row_at-append_kept i x (y ∷ rows) more e = ground (arith, row_at-append_kept i x rows more)

  -- A row of a table that was extended by one.
  pub row_at-appended :
      (i : ℕ) (x y : A) (rows : List A)
      → row_at key i (rows ++ x ∷ []) ≡ some y
      → (row_at key i rows ≡ some y) ⊎ (y ≡ x)
  row_at-appended i x y [] e = at_test (key x == i) e
    where
      at_test : (b : Bool) → head? (if b then x ∷ [] else []) ≡ some y → (none ≡ some y) ⊎ (y ≡ x)
      at_test true q = inr (sym (some_injective q))
      at_test false q = cc
  row_at-appended i x y (z ∷ rows) e = at_test (key z == i) e (row_at-appended i x y rows)
    where
      at_test :
          (b : Bool)
          → head? (
              if b
              then z ∷ select (λ w. key w == i) (rows ++ x ∷ [])
              else select (λ w. key w == i) (rows ++ x ∷ []))
            ≡ some y
          → (row_at key i (rows ++ x ∷ []) ≡ some y → (row_at key i rows ≡ some y) ⊎ (y ≡ x))
          → (head? (if b then z ∷ select (λ w. key w == i) rows else select (λ w. key w == i) rows)
              ≡ some y)
            ⊎ (y ≡ x)
      at_test true q rest = inl q
      at_test false q rest = rest q
