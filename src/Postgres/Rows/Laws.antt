-- ===== src/Postgres/Rows/Laws.antt =====
-- Tables with a primary key.
use mentor_ia_worker.Prelude.{
  ℕ, ◌≡◌, refl, inl, inr, Bool, true, false, Option, none, some, List, [], ◌∷◌, arith, ◌==◌,
  if◌then◌else◌, ==_refl, Bool-cases, Option-cases, update_where-none, ◌∙◌, sym, ap, subst, map,
  length, ltb, ◌++◌, head?, select, update_where,
}
use mentor_ia_worker.Domain.Errors.{Result, ok, err, sentinel, no_rows}
use mentor_ia_worker.Postgres.Tables.{InsightJob, Database, job_at}
use mentor_ia_worker.Postgres.Session.{World, Statement}
use mentor_ia_worker.Postgres.Rows.{update_jobs, first_row, with_param}

module _ {A : Type 0} (key : A → ℕ) where
  abbrev pub row_at : ℕ → List A → Option A
  row_at i rows = head? (select (λ x. key x == i) rows)

  -- No two rows have one key.
  abbrev pub KeysUnique : List A → Type 0
  KeysUnique [] = Unit {0}
  KeysUnique (x ∷ xs) = (row_at (key x) xs ≡ none) × KeysUnique xs

  pub row_at-key : (i : ℕ) (x : A) (rows : List A) → row_at i rows ≡ some x → key x ≡ i
  row_at-key i x [] h = cc
  row_at-key i x (y ∷ rows) h = ground (arith, row_at-key i x rows)

  -- An UPDATE that keeps the keys changes the row of each key by itself.
  pub row_at-update_where :
      (p : A → Bool) (f : A → A) (i : ℕ) (rows : List A)
      → ((x : A) → key (f x) ≡ key x)
      → row_at i (update_where p f rows)
        ≡ elim (row_at i rows) [ none ↦ none | some x ↦ some (if p x then f x else x) ]
  row_at-update_where p f i [] keeps = refl
  row_at-update_where p f i (x ∷ rows) keeps =
      ground (arith, keeps x, row_at-update_where p f i rows keeps)

  pub KeysUnique-update_where :
      (p : A → Bool) (f : A → A) (rows : List A)
      → ((x : A) → key (f x) ≡ key x)
      → KeysUnique rows
      → KeysUnique (update_where p f rows)
  KeysUnique-update_where p f [] keeps u = tt
  KeysUnique-update_where p f (x ∷ rows) keeps u = (
    rw (at_head (p x)) (rw (row_at-update_where p f (key x) rows keeps) (rw u.0)),
    KeysUnique-update_where p f rows keeps u.1,
  )
    where
      at_head : (b : Bool) → key (if b then f x else x) ≡ key x
      at_head true = keeps x
      at_head false = refl

  select-missing :
      (p : A → Bool) (i : ℕ) (rows : List A)
      → ((x : A) → p x ≡ true → key x ≡ i)
      → row_at i rows ≡ none
      → select p rows ≡ []
  select-missing p i [] only h = refl
  select-missing p i (x ∷ rows) only h = ground (arith, only x, select-missing p i rows only)

  -- What a test that one key alone passes selects: the row of the key, if it passes.
  pub select-key :
      (p : A → Bool) (i : ℕ) (rows : List A)
      → ((x : A) → p x ≡ true → key x ≡ i)
      → KeysUnique rows
      → select p rows ≡ elim (row_at i rows) [ none ↦ [] | some x ↦ if p x then x ∷ [] else [] ]
  select-key p i [] only u = refl
  select-key p i (x ∷ rows) only u =
      ground (arith, only x, select-missing p i rows only, select-key p i rows only u.1)

module _ {A : Type 0} (key : A → ℕ) where
  -- An UPDATE that touched a row, by a test that one key alone passes.
  pub row_at-updated :
      (p : A → Bool) (f : A → A) (i : ℕ) (rows : List A)
      → ((x : A) → p x ≡ true → key x ≡ i)
      → ((x : A) → key (f x) ≡ key x)
      → KeysUnique key rows
      → ltb 0 (length (select p rows)) ≡ true
      → (x : A) × (row_at key i rows ≡ some x)
        × (p x ≡ true)
        × (row_at key i (update_where p f rows) ≡ some (f x))
  row_at-updated p f i rows only keeps unique touched = elim (Option-cases (row_at key i rows)) [
    | inl e ↦
        let empty : select p rows ≡ [] = select-key key p i rows only unique ∙ rw e in
        cc (touched, ap (λ l. ltb 0 (length l)) empty)
    | inr (x, e) ↦ elim (Bool-cases (p x)) [
      | inl t ↦ (x, e, t, row_at-update_where key p f i rows keeps ∙ rw e (rw t))
      | inr t ↦
          let empty : select p rows ≡ [] = select-key key p i rows only unique ∙ rw e (rw t) in
          cc (touched, ap (λ l. ltb 0 (length l)) empty)
    ]
  ]

  pub row_at-append :
      (x : A) (rows : List A)
      → row_at key (key x) rows ≡ none
      → row_at key (key x) (rows ++ x ∷ []) ≡ some x
  row_at-append x [] h = rw (==_refl (key x))
  row_at-append x (y ∷ rows) h = ground (arith, row_at-append x rows)

  row_at-append_other :
      (i : ℕ) (x : A) (rows : List A)
      → row_at key i rows ≡ none
      → (key x == i) ≡ false
      → row_at key i (rows ++ x ∷ []) ≡ none
  row_at-append_other i x [] h k = rw k
  row_at-append_other i x (y ∷ rows) h k = ground (arith, row_at-append_other i x rows)

  -- A row with a new key.
  pub KeysUnique-append :
      (x : A) (rows : List A)
      → row_at key (key x) rows ≡ none
      → KeysUnique key rows
      → KeysUnique key (rows ++ x ∷ [])
  KeysUnique-append x [] h u = (refl, tt)
  KeysUnique-append x (y ∷ rows) h u = (
    row_at-append_other (key y) x rows u.0 (ground arith),
    KeysUnique-append x rows (ground arith) u.1,
  )

pub some_injective : {A : Type 0} {x y : A} → some x ≡ some y → x ≡ y
some_injective h = cc

ok_injective : {x y : InsightJob} → ok x ≡ ok y → x ≡ y
ok_injective h = cc

abbrev pub job_key : InsightJob → ℕ
job_key j = j.id

-- An UPDATE of the jobs by a test that one identifier alone passes.
module _ (p : InsightJob → Bool) (f : InsightJob → InsightJob) (i : ℕ)
    (only : (j : InsightJob) → p j ≡ true → j.id ≡ i) where
  -- It finds nothing, and changes nothing, if the job of the identifier does not pass.
  pub update_jobs-missed :
      (w : World)
      → KeysUnique job_key w.db.insight_jobs
      → ((j : InsightJob) → job_at i w.db.insight_jobs ≡ some j → p j ≡ false)
      → update_jobs p f w ≡ (err (sentinel no_rows), w.db)
  unfolding update_jobs
  update_jobs-missed w unique refused =
      rw (nothing, update_where-none p f w.db.insight_jobs nothing)
    where
      nothing : select p w.db.insight_jobs ≡ []
      nothing = elim (Option-cases (job_at i w.db.insight_jobs)) [
        | inl e ↦ select-key job_key p i w.db.insight_jobs only unique ∙ rw e
        | inr (j, e) ↦
            select-key job_key p i w.db.insight_jobs only unique ∙ rw e (rw (refused j e))
      ]

  -- Otherwise it returns the changed row, which is the row of the identifier from then on.
  pub update_jobs-ok :
      (w : World) (row : InsightJob) (db : Database)
      → ((j : InsightJob) → (f j).id ≡ j.id)
      → KeysUnique job_key w.db.insight_jobs
      → update_jobs p f w ≡ (ok row, db)
      → (j : InsightJob) × (job_at i w.db.insight_jobs ≡ some j)
        × (p j ≡ true)
        × (row ≡ f j)
        × (db ≡ record w.db { insight_jobs = update_where p f w.db.insight_jobs })
        × (job_at i db.insight_jobs ≡ some (f j))
  update_jobs-ok w row db keeps unique h = elim (Option-cases (job_at i w.db.insight_jobs)) [
    | inl e ↦ cc (h, update_jobs-missed w unique (λ j q. cc (e, q)))
    | inr (j, e) ↦ elim (Bool-cases (p j)) [
      | inl t ↦ (j, e, t, returned j e t, written, after j e t)
      | inr t ↦ cc (h, update_jobs-missed w unique (λ k q. missed j k e q t))
    ]
  ]
    where
      missed :
          (j k : InsightJob)
          → job_at i w.db.insight_jobs ≡ some j
          → job_at i w.db.insight_jobs ≡ some k
          → p j ≡ false
          → p k ≡ false
      missed j k e q t = subst (λ x. p x ≡ false) (same (sym e ∙ q)) t
        where
          same : some j ≡ some k → j ≡ k
          same s = cc

      written : db ≡ record w.db { insight_jobs = update_where p f w.db.insight_jobs }
      written = unfold update_jobs in sym (ap (λ q. q.1) h)

      selected :
          (j : InsightJob)
          → job_at i w.db.insight_jobs ≡ some j
          → p j ≡ true
          → select p w.db.insight_jobs ≡ j ∷ []
      selected j e t = select-key job_key p i w.db.insight_jobs only unique ∙ rw e (rw t)

      returned : (j : InsightJob) → job_at i w.db.insight_jobs ≡ some j → p j ≡ true → row ≡ f j
      returned j e t = ok_injective (
          unfold update_jobs in
          sym (ap (λ q. q.0) h) ∙ ap (λ l. first_row (map f l)) (selected j e t))

      after :
          (j : InsightJob)
          → job_at i w.db.insight_jobs ≡ some j
          → p j ≡ true
          → job_at i db.insight_jobs ≡ some (f j)
      after j e t =
          ap (λ d. job_at i d.insight_jobs) written
          ∙ row_at-update_where job_key p f i w.db.insight_jobs keeps
          ∙ rw e (rw t)

-- A statement that succeeded had well-formed parameters.
module _ {A B : Type 0} where
  pub with_param-ok :
      (p : Result A) (s : A → Statement B) (w : World) (b : B) (db : Database)
      → with_param p s w ≡ (ok b, db)
      → (x : A) × (p ≡ ok x) × (s x w ≡ (ok b, db))
  with_param-ok (ok x) s w b db h = (x, refl, h)
  with_param-ok (err e) s w b db h = cc
