-- ===== src/Postgres/Steps.antt =====
-- The operations of the repository as steps on one world, in any order and by any number of
-- workers, between which time goes on and the application creates jobs.
pub mod Consistency
pub mod Fencing
pub mod Events
pub mod Accounting
pub mod Lifecycle
pub mod Backoff
use mentor_ia_worker.Prelude.{ℕ, ◌≤◌, ◌≡◌, sym, subst, Bool, none, List, [], ◌∷◌, ◌++◌, ℤ}
use mentor_ia_worker.Text.{Bytes}
use mentor_ia_worker.Domain.{Message, DisciplinePerformance, ProcessingLease, OutboxEvent}
use mentor_ia_worker.Domain.Errors.{Error}
use mentor_ia_worker.Postgres.Tables.{InsightJob}
use mentor_ia_worker.Postgres.Rows.{Repository}
use mentor_ia_worker.Postgres.Rows.Laws.{row_at, job_key}
use mentor_ia_worker.Postgres.Session.{World, Outcome}
use mentor_ia_worker.Postgres.Begin.{begin_processing}
use mentor_ia_worker.Postgres.Save.{save_insight_result}
use mentor_ia_worker.Postgres.Failure.{register_failure}
use mentor_ia_worker.Postgres.Schedule.{schedule_due_retry_jobs}
use mentor_ia_worker.Postgres.Events.{
  claim_pending_outbox_events, mark_outbox_event_published, mark_outbox_event_failed,
}
use mentor_ia_worker.Postgres.JobLaw.{
  IsNew, IsJobLaw, IsQuietLaw, quiet_law, IsClaimLaw, IsSettleLaw, table_law, claim_law,
  requeue_law, settle_law,
}
use mentor_ia_worker.Postgres.Begin.Keeps.{begin_processing-Keeps}
use mentor_ia_worker.Postgres.Save.Keeps.{save_insight_result-Keeps}
use mentor_ia_worker.Postgres.Failure.Keeps.{register_failure-Keeps}
use mentor_ia_worker.Postgres.Schedule.Keeps.{schedule_due_retry_jobs-Keeps}
use mentor_ia_worker.Postgres.Events.Keeps.{
  claim_pending_outbox_events-Keeps, mark_outbox_event_published-Keeps,
  mark_outbox_event_failed-Keeps,
}

pub data Step (r : Repository) (w w' : World) : Type 0 where
  begins : (m : Message) → w' ≡ (begin_processing r m w).1 → Step r w w'
  saves :
      (lease : ProcessingLease) (content : Bytes) (ds : List DisciplinePerformance)
      → w' ≡ (save_insight_result r lease content ds w).1
      → Step r w w'
  fails :
      (lease : ProcessingLease) (max_attempts : ℤ) (code : Bytes) (failure : Error)
      → w' ≡ (register_failure r lease max_attempts code failure w).1
      → Step r w w'
  schedules : (limit : ℕ) → w' ≡ (schedule_due_retry_jobs r limit w).1 → Step r w w'
  claims :
      (limit : ℕ) (lock : ℤ) → w' ≡ (claim_pending_outbox_events r limit lock w).1 → Step r w w'
  publishes : (event : OutboxEvent) → w' ≡ (mark_outbox_event_published event w).1 → Step r w w'
  refuses :
      (event : OutboxEvent) (max_attempts : ℤ) (failure : Error)
      → w' ≡ (mark_outbox_event_failed r event max_attempts failure w).1
      → Step r w w'
  passes :
      (now drawn : ℕ) (locked : ℕ → Bool) (calls : List Outcome)
      → w.now ≤ now
      → w.drawn ≤ drawn
      → w' ≡ record w { now = now; drawn = drawn; locked = locked; calls = calls }
      → Step r w w'
  creates :
      (j : InsightJob)
      → row_at job_key j.id w.db.insight_jobs ≡ none
      → IsNew j
      → w' ≡ record w { db = record w.db { insight_jobs = w.db.insight_jobs ++ j ∷ [] } }
      → Step r w w'

pub data Reach (r : Repository) (w : World) : World → Type 0 where
  here : Reach r w w
  next : {u v : World} → Reach r w u → Step r u v → Reach r w v

-- What a step from one world keeps, by the laws of what it does to the jobs.
pub record IsStepLaw (r : Repository) (P : World → Type 0) (w : World) : Type 0 where
  pub claim : IsClaimLaw r.server P
  pub tables : IsQuietLaw r.server P
  pub saves :
      (lease : ProcessingLease) (content : Bytes) (ds : List DisciplinePerformance)
      → P w
      → P (save_insight_result r lease content ds w).1
  pub fails :
      (lease : ProcessingLease) (max_attempts : ℤ) (code : Bytes) (failure : Error)
      → P w
      → P (register_failure r lease max_attempts code failure w).1
  pub schedules : (limit : ℕ) → P w → P (schedule_due_retry_jobs r limit w).1
  pub passes :
      (now drawn : ℕ) (locked : ℕ → Bool) (calls : List Outcome)
      → w.now ≤ now
      → w.drawn ≤ drawn
      → P w
      → P (record w { now = now; drawn = drawn; locked = locked; calls = calls })
  pub creates :
      (j : InsightJob)
      → row_at job_key j.id w.db.insight_jobs ≡ none
      → IsNew j
      → P w
      → P (record w { db = record w.db { insight_jobs = w.db.insight_jobs ++ j ∷ [] } })

module _ (r : Repository) {P : World → Type 0} {w : World} (law : IsStepLaw r P w) where
  pub Step-keeps : {w' : World} → Step r w w' → P w → P w'
  Step-keeps (begins m e) h = subst P (sym e) ((begin_processing-Keeps r law.claim m).at w h)
  Step-keeps (saves l c ds e) h = subst P (sym e) (law.saves l c ds h)
  Step-keeps (fails l n c f e) h = subst P (sym e) (law.fails l n c f h)
  Step-keeps (schedules n e) h = subst P (sym e) (law.schedules n h)
  Step-keeps (claims n l e) h =
      subst P (sym e) ((claim_pending_outbox_events-Keeps r law.tables n l).at w h)
  Step-keeps (publishes v e) h =
      subst P (sym e) ((mark_outbox_event_published-Keeps r law.tables v).at w h)
  Step-keeps (refuses v n f e) h =
      subst P (sym e) ((mark_outbox_event_failed-Keeps r law.tables v n f).at w h)
  Step-keeps (passes now drawn locked calls a b e) h =
      subst P (sym e) (law.passes now drawn locked calls a b h)
  Step-keeps (creates j a b e) h = subst P (sym e) (law.creates j a b h)

-- How a job is settled keeps a law of settled jobs.
module _ (r : Repository) {P : World → Type 0} (law : IsSettleLaw r.server P) (w : World) where
  pub saves_by :
      (lease : ProcessingLease) (content : Bytes) (ds : List DisciplinePerformance)
      → P w
      → P (save_insight_result r lease content ds w).1
  saves_by lease content ds = (save_insight_result-Keeps r law lease content ds).at w

  pub fails_by :
      (lease : ProcessingLease) (max_attempts : ℤ) (code : Bytes) (failure : Error)
      → P w
      → P (register_failure r lease max_attempts code failure w).1
  fails_by lease n code failure = (register_failure-Keeps r law lease n code failure).at w

module _ (r : Repository) {P : World → Type 0} (law : IsJobLaw r.server P) where
  step_law : (w : World) → IsStepLaw r P w
  step_law w = record {
    claim = claim_law law;
    tables = quiet_law (table_law law);
    saves = saves_by r (settle_law law) w;
    fails = fails_by r (settle_law law) w;
    schedules = λ n. (schedule_due_retry_jobs-Keeps r (requeue_law law) n).at w;
    passes = law.passes w;
    creates = law.creates w;
  }

  -- A law of the jobs holds for ever.
  pub Reach-keeps : {w w' : World} → Reach r w w' → P w → P w'
  Reach-keeps here h = h
  Reach-keeps (next {u} s t) h = Step-keeps r (step_law u) t (Reach-keeps s h)
