-- ===== src/Postgres/Steps/Backoff.antt =====
-- The time between a failure and the next attempt.
use mentor_ia_worker.Prelude.{
  ℕ, ◌+◌, ◌*◌, ◌≤◌, ◌<◌, ◌≡◌, refl, sym, ap, subst, Bool, true, false, none, some, List, [], ◌∷◌, ℤ,
  arith, All, All-append, All-update_where, update_where, if◌then◌else◌, head?, select, ◌==◌,
}
use mentor_ia_worker.Text.{Bytes}
use mentor_ia_worker.Domain.{Message, ProcessingLease}
use mentor_ia_worker.Domain.Errors.{ok}
use mentor_ia_worker.Postgres.Tables.{Server, aguardando_retentativa, InsightJob, job_at}
use mentor_ia_worker.Postgres.Rows.{Repository}
use mentor_ia_worker.Postgres.Rows.Laws.{some_injective}
use mentor_ia_worker.Postgres.Session.{World}
use mentor_ia_worker.Postgres.Begin.{begin_processing, acquired, claimed}
use mentor_ia_worker.Postgres.Begin.Lease.{Names}
use mentor_ia_worker.Postgres.Begin.Exclusive.{IsTaken, begin_processing_exclusive}
use mentor_ia_worker.Postgres.Save.{completed}
use mentor_ia_worker.Postgres.Failure.{failed_attempt, is_exhausted, backoff_seconds}
use mentor_ia_worker.Postgres.Schedule.{requeued}
use mentor_ia_worker.Postgres.JobLaw.{IsJobLaw}
use mentor_ia_worker.Postgres.Steps.{Reach, Reach-keeps}
use mentor_ia_worker.Postgres.Steps.Consistency.{
  IsConsistent, JobsAreConsistent, Reach-JobsAreConsistent,
}

-- The next attempt of a job is from 5 to 300 seconds after its last change.
abbrev pub IsSpaced : InsightJob → Type 0
IsSpaced j =
    (at : ℕ)
    → j.proxima_tentativa_em ≡ some at
    → (j.atualizado_em + 5000 ≤ at) × (at ≤ j.atualizado_em + 300000)

backoff_seconds-bounds :
    (attempts : ℕ) → (5 ≤ backoff_seconds attempts) × (backoff_seconds attempts ≤ 300)
backoff_seconds-bounds attempts = (omega arith, omega arith)

without_retry-IsSpaced : (j : InsightJob) → j.proxima_tentativa_em ≡ none → IsSpaced j
without_retry-IsSpaced j e at h = cc

failed_attempt-IsSpaced :
    (now : ℕ) (max_attempts : ℤ) (code summary : Bytes) (j : InsightJob)
    → IsSpaced (failed_attempt now max_attempts code summary j)
failed_attempt-IsSpaced now max_attempts code summary j at h =
    at_test (is_exhausted max_attempts j.tentativas) h
  where
    same : {x y : ℕ} → some x ≡ some y → x ≡ y
    same q = cc

    at_test :
        (b : Bool)
        → (if b then none else some (now + 1000 * backoff_seconds j.tentativas)) ≡ some at
        → (now + 5000 ≤ at) × (at ≤ now + 300000)
    at_test true q = cc
    at_test false q =
        let (low, high) = backoff_seconds-bounds j.tentativas in
        (omega (arith, same q, low), omega (arith, same q, high))

abbrev pub JobsAreSpaced : World → Type 0
JobsAreSpaced w = All IsSpaced w.db.insight_jobs

changing-JobsAreSpaced :
    (p : InsightJob → Bool) (f : InsightJob → InsightJob) (rows : List InsightJob)
    → ((j : InsightJob) → IsSpaced (f j))
    → All IsSpaced rows
    → All IsSpaced (update_where p f rows)
changing-JobsAreSpaced p f rows after h = All-update_where IsSpaced p f rows (λ j _. after j) h

JobsAreSpaced-law : (server : Server) → IsJobLaw server JobsAreSpaced
JobsAreSpaced-law server = record {
  framed = record { calls = λ w os h. h; draws = λ w h. h; rollback = λ v w hv hw. hv };
  other_tables = λ w db same h. subst (All IsSpaced) (sym same.jobs) h;
  claims = λ v w p seconds hv h lt _.
      changing-JobsAreSpaced p (claimed w.now (server.new_uuid v.drawn) seconds) w.db.insight_jobs
        (λ j. without_retry-IsSpaced (claimed w.now (server.new_uuid v.drawn) seconds j) refl) h;
  completes = λ w p h _.
      changing-JobsAreSpaced p (completed w.now) w.db.insight_jobs
        (λ j. without_retry-IsSpaced (completed w.now j) refl) h;
  fails = λ w p n c s h _.
      changing-JobsAreSpaced p (failed_attempt w.now n c s) w.db.insight_jobs
        (failed_attempt-IsSpaced w.now n c s) h;
  requeues = λ w p h.
      changing-JobsAreSpaced p (requeued w.now) w.db.insight_jobs
        (λ j. without_retry-IsSpaced (requeued w.now j) refl) h;
  passes = λ w now drawn locked calls a b h. h;
  creates = λ w j missing new h.
      All-append IsSpaced w.db.insight_jobs (j ∷ []) h (without_retry-IsSpaced j new.retry, tt);
}

-- Whatever operations the workers do and in whatever order, the next attempt of every job that has
-- one stays from 5 to 300 seconds after the last change of the job.
pub Reach-JobsAreSpaced :
    (r : Repository) {w w' : World} → Reach r w w' → JobsAreSpaced w → JobsAreSpaced w'
Reach-JobsAreSpaced r s h = Reach-keeps r (JobsAreSpaced-law r.server) s h

-- What holds of all rows holds of the row with a key.
All-job_at :
    (P : InsightJob → Type 0) (i : ℕ) (j : InsightJob) (rows : List InsightJob)
    → All P rows
    → job_at i rows ≡ some j
    → P j
All-job_at P i j [] h e = cc
All-job_at P i j (k ∷ rows) h e = at_test (k.id == i) e (All-job_at P i j rows h.1)
  where
    at_test :
        (b : Bool)
        → head? (if b then k ∷ select (λ x. x.id == i) rows else select (λ x. x.id == i) rows)
          ≡ some j
        → (job_at i rows ≡ some j → P j)
        → P j
    at_test true q rest = subst P (some_injective q) h.0
    at_test false q rest = rest q

due :
    (t now : ℕ) (j : InsightJob)
    → j.status ≡ aguardando_retentativa
    → j.proxima_tentativa_em ≡ some t
    → ¬ IsTaken now j
    → t ≤ now
due t now j waits retry free =
    let not_later : ¬ (now < t) = λ lt. free (IsTaken.waiting t waits retry lt) in omega arith

-- The time of the next attempt of a job that waits for one.
retry_of :
    (j : InsightJob)
    → IsConsistent j
    → j.status ≡ aguardando_retentativa
    → (t : ℕ) × (j.proxima_tentativa_em ≡ some t)
retry_of j (IsConsistent.fresh s token lease retry) e = cc
retry_of j (IsConsistent.running token until s t l retry) e = cc
retry_of j (IsConsistent.waiting at code s token lease retry failure) e = (at, retry)
retry_of j (IsConsistent.failed code s token lease retry failure) e = cc
retry_of j (IsConsistent.done at s token lease retry ended) e = cc

-- Whatever operations the workers do and in whatever order, a job that waits for a retry is not
-- taken again within 5 seconds of the failure.
pub retried_after_backoff :
    (r : Repository) (m : Message) (i a : ℕ) (j : InsightJob) (lease : ProcessingLease)
    (w w' w'' : World)
    → Names r.server m i a
    → JobsAreConsistent w
    → JobsAreSpaced w
    → Reach r w w'
    → job_at i w'.db.insight_jobs ≡ some j
    → j.status ≡ aguardando_retentativa
    → begin_processing r m w' ≡ (ok (acquired lease), w'')
    → j.atualizado_em + 5000 ≤ w'.now
retried_after_backoff r m i a j lease w w' w'' names valid spaced reach found waits begun =
    let valid' = Reach-JobsAreConsistent r reach valid in
    let (t, retry) =
      retry_of j (All-job_at IsConsistent i j w'.db.insight_jobs valid'.0 found) waits in
    let (low, high) =
      All-job_at IsSpaced i j w'.db.insight_jobs (Reach-JobsAreSpaced r reach spaced) found t
        retry in
    omega (arith, low, due t w'.now j waits retry free)
  where
    free : ¬ IsTaken w'.now j
    free taken =
        (begin_processing_exclusive r m w' i a j names (Reach-JobsAreConsistent r reach valid).1
            found taken).1
          lease (ap (λ q. q.0) begun)
