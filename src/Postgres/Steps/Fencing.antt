-- ===== src/Postgres/Steps/Fencing.antt =====
-- The token of a lease as a fence: once a job has lost it, it never comes back.
use mentor_ia_worker.Prelude.{
  ℕ, ◌<◌, ◌≡◌, ◌≢◌, refl, sym, ap, subst, ◌∙◌, Bool, true, false, Option, none, some, List, [], ◌∷◌,
  ◌++◌, ℤ, arith, update_where, if◌then◌else◌, ◌==◌, head?, select,
}
use mentor_ia_worker.Text.{Bytes}
use mentor_ia_worker.Domain.{Message, DisciplinePerformance, ProcessingLease, FailureAction}
use mentor_ia_worker.Domain.Errors.{Error, ok}
use mentor_ia_worker.Postgres.Tables.{Server, InsightJob, job_at}
use mentor_ia_worker.Postgres.Rows.{Repository}
use mentor_ia_worker.Postgres.Rows.Laws.{job_key, KeysUnique, row_at-update_where, some_injective}
use mentor_ia_worker.Postgres.Session.{World}
use mentor_ia_worker.Postgres.Begin.{begin_processing, acquired, claimed}
use mentor_ia_worker.Postgres.Begin.Lease.{Names, Leases, begin_processing-acquired}
use mentor_ia_worker.Postgres.Begin.Keeps.{begin_processing-drawn}
use mentor_ia_worker.Postgres.Save.{save_insight_result, completed}
use mentor_ia_worker.Postgres.Save.Atomic.{save_insight_result_stale}
use mentor_ia_worker.Postgres.Failure.{register_failure, failed_attempt}
use mentor_ia_worker.Postgres.Failure.Atomic.{register_failure_stale}
use mentor_ia_worker.Postgres.Schedule.{requeued}
use mentor_ia_worker.Postgres.JobLaw.{IsJobLaw}
use mentor_ia_worker.Postgres.Steps.{Reach, here, next, begins, Reach-keeps}
use mentor_ia_worker.Postgres.Steps.Consistency.{JobsAreConsistent, Reach-JobsAreConsistent}

-- The job does not carry the token.
abbrev IsWithout : ℕ → ℕ → List InsightJob → Type 0
IsWithout i token rows = (j : InsightJob) → job_at i rows ≡ some j → j.processing_token ≢ some token

IsWithout-changed :
    (i token : ℕ) (p : InsightJob → Bool) (f : InsightJob → InsightJob) (rows : List InsightJob)
    → ((j : InsightJob) → (f j).id ≡ j.id)
    → ((j : InsightJob) → (f j).processing_token ≢ some token)
    → IsWithout i token rows
    → IsWithout i token (update_where p f rows)
IsWithout-changed i token p f rows same other h j e =
    at_row (job_at i rows) refl (sym e ∙ row_at-update_where job_key p f i rows same)
  where
    at_test :
        (k : InsightJob)
        → job_at i rows ≡ some k
        → (b : Bool) → some j ≡ some (if b then f k else k)
        → j.processing_token ≢ some token
    at_test k q true s =
        subst (λ x. x.processing_token ≢ some token) (sym (some_injective s)) (other k)
    at_test k q false s =
        subst (λ x. x.processing_token ≢ some token) (sym (some_injective s)) (h k q)

    at_row :
        (o : Option InsightJob)
        → job_at i rows ≡ o
        → some j ≡ elim o [ none ↦ none | some x ↦ some (if p x then f x else x) ]
        → j.processing_token ≢ some token
    at_row none q s = cc
    at_row (some k) q s = at_test k q (p k) s

IsWithout-appended :
    (i token : ℕ) (x : InsightJob) (rows : List InsightJob)
    → x.processing_token ≡ none
    → IsWithout i token rows
    → IsWithout i token (rows ++ x ∷ [])
IsWithout-appended i token x [] new h j e = λ t. ground arith
IsWithout-appended i token x (y ∷ rows) new h j e =
    at_test (y.id == i) e h (IsWithout-appended i token x rows new)
  where
    at_test :
        (b : Bool)
        → head? (
            if b
            then y ∷ select (λ k. k.id == i) (rows ++ x ∷ [])
            else select (λ k. k.id == i) (rows ++ x ∷ []))
          ≡ some j
        → ((k : InsightJob)
            → head? (if b then y ∷ select (λ k. k.id == i) rows else select (λ k. k.id == i) rows)
              ≡ some k
            → k.processing_token ≢ some token)
        → (IsWithout i token rows → IsWithout i token (rows ++ x ∷ []))
        → j.processing_token ≢ some token
    at_test true q front rest = front j q
    at_test false q front rest = rest front j q

module _ (server : Server) (i k : ℕ) where
  -- The token was drawn, and the job does not carry it.
  abbrev pub IsFenced : World → Type 0
  IsFenced w = IsWithout i (server.new_uuid k) w.db.insight_jobs × (k < w.drawn)

  none-ne : {t : ℕ} → none ≢ some t
  none-ne e = cc

  IsFenced-law : IsJobLaw server IsFenced
  IsFenced-law = record {
    framed = record {
      calls = λ w os h. h;
      draws = λ w h. (h.0, omega (arith, h.1));
      rollback = λ v w hv hw. (hv.0, hw.1);
    };
    other_tables =
        λ w db same h. (subst (IsWithout i (server.new_uuid k)) (sym same.jobs) h.0, h.1);
    claims = λ v w p seconds hv h lt _. (
      IsWithout-changed i (server.new_uuid k) p (claimed w.now (server.new_uuid v.drawn) seconds)
          w.db.insight_jobs (λ j. refl) (λ j e. fresh v.drawn hv.1 (some_nat e)) h.0,
      h.1,
    );
    completes = λ w p h _. (
      IsWithout-changed i (server.new_uuid k) p (completed w.now) w.db.insight_jobs (λ j. refl)
          (λ j. none-ne) h.0,
      h.1,
    );
    fails = λ w p n c s h _. (
      IsWithout-changed i (server.new_uuid k) p (failed_attempt w.now n c s) w.db.insight_jobs
          (λ j. refl) (λ j. none-ne) h.0,
      h.1,
    );
    requeues = λ w p h. (
      IsWithout-changed i (server.new_uuid k) p (requeued w.now) w.db.insight_jobs (λ j. refl)
          (λ j. none-ne) h.0,
      h.1,
    );
    passes = λ w now drawn locked calls a b h. (h.0, omega (arith, h.1, b));
    creates = λ w j missing new h.
        (IsWithout-appended i (server.new_uuid k) j w.db.insight_jobs new.token h.0, h.1);
  }
    where
      some_nat : {a b : ℕ} → some a ≡ some b → a ≡ b
      some_nat q = cc

      fresh : (n : ℕ) → k < n → server.new_uuid n ≢ server.new_uuid k
      fresh n lt e = let q : n ≡ k = server.new_uuid-injective n k e in omega arith

drawn-law : (server : Server) (k : ℕ) → IsJobLaw server (λ w. k < w.drawn)
drawn-law server k = record {
  framed = record {
    calls = λ w os h. h;
    draws = λ w h. omega (arith, h);
    rollback = λ v w hv hw. hw;
  };
  other_tables = λ w db same h. h;
  claims = λ v w p seconds hv h lt _. h;
  completes = λ w p h _. h;
  fails = λ w p n c s h _. h;
  requeues = λ w p h. h;
  passes = λ w now drawn locked calls a b h. omega (arith, h, b);
  creates = λ w j missing new h. h;
}

-- What no longer works under a lease.
pub record IsRefused (r : Repository) (lease : ProcessingLease) (w : World) : Type 0 where
  pub saves :
      (content : Bytes) (ds : List DisciplinePerformance)
      → let (result, w') = save_insight_result r lease content ds w in
        (w'.db ≡ w.db) × (result ≢ ok tt)
  pub registers :
      (max_attempts : ℤ) (code : Bytes) (failure : Error)
      → let (result, w') = register_failure r lease max_attempts code failure w in
        (w'.db ≡ w.db) × ((action : FailureAction) → result ≢ ok action)

fenced-IsRefused :
    (r : Repository) (lease : ProcessingLease) (w : World) (i a k : ℕ)
    → Names r.server lease.message i a
    → lease.token ≡ r.server.new_uuid k
    → IsFenced r.server i k w
    → KeysUnique job_key w.db.insight_jobs
    → IsRefused r lease w
fenced-IsRefused r lease w i a k names drawn fenced unique = record {
  saves = λ content ds. save_insight_result_stale r lease content ds w i a names unique stale;
  registers =
      λ n code failure. register_failure_stale r lease n code failure w i a names unique stale;
}
  where
    stale : IsWithout i lease.token w.db.insight_jobs
    stale = subst (λ t. IsWithout i t w.db.insight_jobs) (sym drawn) fenced.0

-- Two workers never both finish one job: when a second one has been given a lease of the job of the first one, then,
-- at any later time and whatever has happened in between, the lease of the first one neither saves
-- an insight nor registers a failure.
pub second_lease_refuses_first :
    (r : Repository) (m m' : Message) (i a : ℕ) (first second : ProcessingLease)
    (w w₁ w₂ w₃ w₄ : World)
    → Names r.server m i a
    → Names r.server m' i a
    → JobsAreConsistent w
    → begin_processing r m w ≡ (ok (acquired first), w₁)
    → Reach r w₁ w₂
    → begin_processing r m' w₂ ≡ (ok (acquired second), w₃)
    → Reach r w₃ w₄
    → IsRefused r first w₄
second_lease_refuses_first r m m' i a first second w w₁ w₂ w₃ w₄ names names' valid b₁ s₁ b₂ s₂ =
    fenced-IsRefused r first w₄ i a w.drawn
      (subst (λ n. Names r.server n i a) (sym lease₁.named) names) lease₁.fresh
      (Reach-keeps r (IsFenced-law r.server i w.drawn) s₂ (without, drawn₃)) valid₄.1
  where
    valid₂ : JobsAreConsistent w₂
    valid₂ =
        Reach-JobsAreConsistent r s₁
          (Reach-JobsAreConsistent r (next here (begins m (sym (ap (λ q. q.1) b₁)))) valid)

    valid₄ : JobsAreConsistent w₄
    valid₄ =
        Reach-JobsAreConsistent r s₂
          (Reach-JobsAreConsistent r (next here (begins m' (sym (ap (λ q. q.1) b₂)))) valid₂)

    lease₁ : Leases r m i a w w₁ first
    lease₁ = begin_processing-acquired r m w w₁ first i a names valid.1 b₁

    lease₂ : Leases r m' i a w₂ w₃ second
    lease₂ = begin_processing-acquired r m' w₂ w₃ second i a names' valid₂.1 b₂

    drawn₂ : w.drawn < w₂.drawn
    drawn₂ =
        Reach-keeps r (drawn-law r.server w.drawn) s₁ (begin_processing-drawn r m w w₁ first b₁)

    drawn₃ : w.drawn < w₃.drawn
    drawn₃ = omega (arith, drawn₂, begin_processing-drawn r m' w₂ w₃ second b₂)

    some_nat : {x y : ℕ} → some x ≡ some y → x ≡ y
    some_nat q = cc

    without : IsWithout i (r.server.new_uuid w.drawn) w₃.db.insight_jobs
    without j e t =
        let carried : some second.token ≡ some (r.server.new_uuid w.drawn) =
          ap (λ k. k.processing_token) (some_injective (sym lease₂.after ∙ e)) ∙ t in
        let same : w₂.drawn ≡ w.drawn =
          r.server.new_uuid-injective w₂.drawn w.drawn (sym lease₂.fresh ∙ some_nat carried) in
        omega (arith, drawn₂)
