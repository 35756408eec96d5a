-- ===== src/Postgres/Steps/Accounting.antt =====
-- What the tables hold of each job: an insight of a completed one, an event of a failed one.
pub mod Settling
pub mod Saving
pub mod Failing
pub mod Scheduling
pub mod Runs
use mentor_ia_worker.Prelude.{
  ℕ, ◌≡◌, ◌≢◌, ◌⊎◌, refl, sym, ap, subst, ◌∙◌, inl, inr, Bool, true, false, none, some, Option,
  List, [], ◌∷◌, ◌++◌, ◌==◌, ==_iff, arith, update_where, if◌then◌else◌, Bool-cases, Option-cases,
}
use mentor_ia_worker.Postgres.Tables.{
  Status, pendente, processando, aguardando_retentativa, falhou, concluido, InsightJob, Database,
  job_at,
}
use mentor_ia_worker.Postgres.Counting.{failures_of, insights_of}
use mentor_ia_worker.Postgres.Rows.Laws.{job_key, row_at-update_where, row_at-key}
use mentor_ia_worker.Postgres.Rows.Lookup.{row_at-append_kept, row_at-appended}
use mentor_ia_worker.Postgres.Session.{World}

-- How many events `insight_failed`, and how many insights, a job of this status should have.
abbrev pub failures_due : Status → ℕ
failures_due falhou = 1
failures_due _ = 0

abbrev pub insights_due : Status → ℕ
insights_due concluido = 1
insights_due _ = 0

-- The same for the job of an identifier, of which there may be none.
abbrev pub due : (Status → ℕ) → Option InsightJob → ℕ
due d none = 0
due d (some j) = d j.status

-- The outbox and the insights have what they should have of the job, once.
pub record IsAccounted (db : Database) (i : ℕ) : Type 0 where
  pub failures : failures_of i db ≡ due failures_due (job_at i db.insight_jobs)
  pub insights : insights_of i db ≡ due insights_due (job_at i db.insight_jobs)

abbrev pub AllAccounted : World → Type 0
AllAccounted w = (i : ℕ) → IsAccounted w.db i

module _ (d : Status → ℕ) where
  -- An UPDATE after which as much is due.
  pub due-changed :
      (p : InsightJob → Bool) (f : InsightJob → InsightJob) (i : ℕ) (rows : List InsightJob)
      → ((j : InsightJob) → (f j).id ≡ j.id)
      → ((j : InsightJob) → j.id ≡ i → p j ≡ true → d (f j).status ≡ d j.status)
      → due d (job_at i (update_where p f rows)) ≡ due d (job_at i rows)
  due-changed p f i rows keeps same =
      ap (due d) (row_at-update_where job_key p f i rows keeps) ∙ at_row (job_at i rows) refl
    where
      at_test :
          (j : InsightJob) (b : Bool)
          → j.id ≡ i
          → p j ≡ b
          → d (if b then f j else j).status ≡ d j.status
      at_test j true own t = same j own t
      at_test j false own t = refl

      at_row :
          (o : Option InsightJob)
          → job_at i rows ≡ o
          → due d (elim o [ none ↦ none | some x ↦ some (if p x then f x else x) ]) ≡ due d o
      at_row none e = refl
      at_row (some j) e = at_test j (p j) (row_at-key job_key i j rows e) refl

  -- A new job of which nothing is due.
  pub due-appended :
      (i : ℕ) (j : InsightJob) (rows : List InsightJob)
      → d j.status ≡ 0
      → due d (job_at i (rows ++ j ∷ [])) ≡ due d (job_at i rows)
  due-appended i j rows nothing = at_row (job_at i rows) refl
    where
      at_new :
          (o : Option InsightJob)
          → job_at i rows ≡ none
          → job_at i (rows ++ j ∷ []) ≡ o
          → due d o ≡ 0
      at_new none missing e = refl
      at_new (some k) missing e = elim (row_at-appended job_key i j k rows e) [
        | inl old ↦ cc (old, missing)
        | inr same ↦ ap (λ x. d x.status) same ∙ nothing
      ]

      at_row :
          (o : Option InsightJob) → job_at i rows ≡ o → due d (job_at i (rows ++ j ∷ [])) ≡ due d o
      at_row none e = at_new (job_at i (rows ++ j ∷ [])) e refl
      at_row (some k) e = ap (due d) (row_at-append_kept job_key i k rows (j ∷ []) e)

-- Counts that were right, and change for one job, are right for all if they are for that one.
pub counts_after :
    (d : Status → ℕ) (i : ℕ) (old new : ℕ → ℕ) (before after : List InsightJob)
    → ((k : ℕ) → k ≢ i → due d (job_at k after) ≡ due d (job_at k before))
    → ((k : ℕ) → k ≢ i → new k ≡ old k)
    → new i ≡ due d (job_at i after)
    → ((k : ℕ) → old k ≡ due d (job_at k before))
    → (k : ℕ) → new k ≡ due d (job_at k after)
counts_after d i old new before after jobs counts here right k = elim (Bool-cases (k == i)) [
  | inl e ↦ subst (λ n. new n ≡ due d (job_at n after)) (sym ((==_iff k i).0 e)) here
  | inr e ↦
      let other : k ≢ i = λ q. cc (e, (==_iff k i).1 q) in
      counts k other ∙ right k ∙ sym (jobs k other)
]
