-- ===== src/Postgres/Steps/Lifecycle/Endings.antt =====
-- A job that has ended.
use mentor_ia_worker.Prelude.{
  ℕ, ◌≡◌, ◌≢◌, refl, sym, subst, ap, ◌∙◌, inl, inr, Bool, true, Option, none, some, List, ◌∷◌, [],
  ℤ, arith,
}
use mentor_ia_worker.Text.{Bytes}
use mentor_ia_worker.Domain.{DisciplinePerformance, ProcessingLease}
use mentor_ia_worker.Domain.Errors.{Error}
use mentor_ia_worker.Postgres.Tables.{
  Server, Status, processando, aguardando_retentativa, falhou, concluido, InsightJob, InsightRow,
  job_at, insight_of,
}
use mentor_ia_worker.Postgres.Rows.{Repository}
use mentor_ia_worker.Postgres.Rows.Laws.{job_key, some_injective}
use mentor_ia_worker.Postgres.Rows.Lookup.{row_at-updating, row_at-append_kept}
use mentor_ia_worker.Postgres.Session.{World, called, statement}
use mentor_ia_worker.Postgres.Session.Keeps.{IsFramed}
use mentor_ia_worker.Postgres.Session.Laws.{step-ok, statement-ok, continue-ok, transaction_atomic}
use mentor_ia_worker.Postgres.Begin.{is_free_in, claimed}
use mentor_ia_worker.Postgres.Save.{
  completed, is_leased, upserted, complete_job, save_content, save_body, save_insight_result,
}
use mentor_ia_worker.Postgres.Save.Atomic.{save_body-Saved}
use mentor_ia_worker.Postgres.Failure.{
  failed_attempt, summary_of, register_attempt, announce, register, failure_body, register_failure,
}
use mentor_ia_worker.Postgres.Failure.Effect.{registered-ok}
use mentor_ia_worker.Postgres.Failure.Atomic.{failure_body-Registered}
use mentor_ia_worker.Postgres.Schedule.Effect.{IsSkipped, schedule_due_retry_jobs_keeps}
use mentor_ia_worker.Postgres.Schedule.Keeps.{schedule_due_retry_jobs-Keeps}
use mentor_ia_worker.Postgres.JobLaw.{
  quiet_law, IsTableLaw, IsClaimLaw, IsSettleLaw, IsRequeueLaw, changing, is_leased-status,
}
use mentor_ia_worker.Postgres.Steps.{
  Step-keeps, IsStepLaw, saves_by, fails_by, Reach, here, next, Reach-keeps,
}
use mentor_ia_worker.Postgres.Steps.Lifecycle.Runs.{JobsAreUnique, JobsAreUnique-law}
use mentor_ia_worker.Postgres.Steps.Accounting.Saving.{complete_job-names}
use mentor_ia_worker.Postgres.Steps.Accounting.Failing.{register_attempt-names}

-- `status IN ('concluido', 'falhou')`
pub data HasEnded : Status → Type 0 where
  completed_job : HasEnded concluido
  failed_job : HasEnded falhou

ended_not_free :
    (now : ℕ) {s : Status} (retry_at lease_end : Option ℕ)
    → HasEnded s
    → is_free_in now s retry_at lease_end ≢ true
ended_not_free now retry_at lease_end completed_job h = cc
ended_not_free now retry_at lease_end failed_job h = cc

ended_not_running : {s : Status} → HasEnded s → s ≢ processando
ended_not_running completed_job h = cc
ended_not_running failed_job h = cc

pub ended_not_waiting : {s : Status} → HasEnded s → s ≢ aguardando_retentativa
ended_not_waiting completed_job h = cc
ended_not_waiting failed_job h = cc

-- An insight of another job is written.
upserted-elsewhere :
    (i : ℕ) (row : InsightRow) (old : Option InsightRow) (rows : List InsightRow)
    → row.job_id ≢ i
    → insight_of i (upserted row old rows) ≡ insight_of i rows
unfolding upserted
upserted-elsewhere i row none [] other = ground (arith, other)
upserted-elsewhere i row none (x ∷ rows) other =
    let rest = upserted-elsewhere i row none rows other in ground (arith, rest)
upserted-elsewhere i row (some old) [] other = refl
upserted-elsewhere i row (some old) (x ∷ rows) other =
    let rest = upserted-elsewhere i row (some old) rows other in ground (arith, rest, other)

module _ (server : Server) (i : ℕ) (j : InsightJob) (ended : HasEnded j.status) where
  abbrev IsUntouched : World → Type 0
  IsUntouched w = job_at i w.db.insight_jobs ≡ some j

  -- An UPDATE by a test that the job does not pass.
  untouched :
      (p : InsightJob → Bool) (f : InsightJob → InsightJob) (w : World)
      → ((k : InsightJob) → (f k).id ≡ k.id)
      → p j ≢ true
      → IsUntouched w
      → IsUntouched (changing p f w)
  untouched p f w keeps refused found =
      let (k, after, change) = row_at-updating job_key p f i j w.db.insight_jobs keeps found in
      elim change [ inl (t, _) ↦ absurd (refused t) | inr same ↦ after ∙ ap some same ]

  IsUntouched-table_law : IsTableLaw server IsUntouched
  IsUntouched-table_law = record {
    framed = record { calls = λ w os h. h; draws = λ w h. h; rollback = λ v w hv hw. hv };
    other_tables = λ w db same h. ap (job_at i) same.jobs ∙ h;
  }

  IsUntouched-claim_law : IsClaimLaw server IsUntouched
  IsUntouched-claim_law = record {
    framed = IsUntouched-table_law.framed;
    claims = λ v w p seconds hv h lt free.
        untouched p (claimed w.now (server.new_uuid v.drawn) seconds) w (λ k. refl)
          (λ t. ended_not_free w.now j.proxima_tentativa_em j.lease_expira_em ended (free j t)) h;
  }

  IsUntouched-settle_law : IsSettleLaw server IsUntouched
  IsUntouched-settle_law = record {
    tables = IsUntouched-table_law;
    completes = λ w p h runs.
        untouched p (completed w.now) w (λ k. refl) (λ t. ended_not_running ended (runs j t)) h;
    fails = λ w p n code summary h runs.
        untouched p (failed_attempt w.now n code summary) w (λ k. refl)
          (λ t. ended_not_running ended (runs j t)) h;
  }

step_law :
    (r : Repository) (i : ℕ) (j : InsightJob) (ended : HasEnded j.status) (w : World)
    → JobsAreUnique w
    → IsStepLaw r (IsUntouched r.server i j ended) w
step_law r i j ended w unique = record {
  claim = IsUntouched-claim_law r.server i j ended;
  tables = quiet_law (IsUntouched-table_law r.server i j ended);
  saves = saves_by r (IsUntouched-settle_law r.server i j ended) w;
  fails = fails_by r (IsUntouched-settle_law r.server i j ended) w;
  schedules = λ n h.
      schedule_due_retry_jobs_keeps r n w i j unique h
        (IsSkipped.not_waiting_job (ended_not_waiting ended));
  passes = λ now drawn locked calls a b h. h;
  creates = λ x a b h. row_at-append_kept job_key i j w.db.insight_jobs (x ∷ []) h;
}

-- The insight of a job that has ended is not written, deleted or added.
module _ (r : Repository) (i : ℕ) (j : InsightJob) (ended : HasEnded j.status)
    (o : Option InsightRow) where
  abbrev HasInsight : World → Type 0
  HasInsight w = insight_of i w.db.insights ≡ o

  HasInsight-framed : IsFramed r.server HasInsight
  HasInsight-framed = record { calls = λ w os h. h; draws = λ w h. h; rollback = λ v w hv hw. hv }

  HasInsight-law : IsRequeueLaw r.server HasInsight
  HasInsight-law = record {
    tables = record {
      framed = HasInsight-framed;
      other_tables = λ w db quiet h. ap (insight_of i) quiet.insights ∙ h;
    };
    requeues = λ w p h. h;
  }

  -- A lease that is worth something is that of another job.
  leased_other :
      (k a token : ℕ) (rows : List InsightJob) (x : InsightJob)
      → job_at i rows ≡ some j
      → job_at k rows ≡ some x
      → is_leased k a token x ≡ true
      → k ≢ i
  leased_other k a token rows x found leased_job leased e = ended_not_running ended (
      subst (λ y. y.status ≡ processando)
        (some_injective (sym leased_job ∙ ap (λ n. job_at n rows) e ∙ found))
        (is_leased-status k a token x leased))

  saves-HasInsight :
      (lease : ProcessingLease) (content : Bytes) (ds : List DisciplinePerformance) (w : World)
      → JobsAreUnique w
      → job_at i w.db.insight_jobs ≡ some j
      → HasInsight w
      → HasInsight (save_insight_result r lease content ds w).1
  unfolding save_insight_result save_body
  saves-HasInsight lease content ds w unique found h =
      elim (transaction_atomic "falha ao iniciar transacao para salvar insight: "
        "falha ao confirmar insight: " (save_body r.server lease content ds) w) [
          | inl e ↦ ap (λ d. insight_of i d.insights) e ∙ h
          | inr (t, v, e, q) ↦
              let (n, u, done, frame, rest) =
                step-ok "falha ao marcar job como concluido: " (complete_job r.server lease)
                  (save_content r.server lease content ds) (called w) v tt e in
              let (k, a, names) = complete_job-names r lease content ds (called w) n u.db done in
              let s = save_body-Saved r.server lease content ds k a names (called w) v unique e in
              let other =
                leased_other k a lease.token w.db.insight_jobs s.job found s.found s.leased in
              ap (λ d. insight_of i d.insights) q
              ∙ ap (insight_of i) s.written.1
              ∙ upserted-elsewhere i _ (insight_of k w.db.insights) w.db.insights other
              ∙ h
        ]

  fails-HasInsight :
      (lease : ProcessingLease) (max_attempts : ℤ) (code : Bytes) (failure : Error) (w : World)
      → JobsAreUnique w
      → HasInsight w
      → HasInsight (register_failure r lease max_attempts code failure w).1
  unfolding register_failure failure_body register
  fails-HasInsight lease max_attempts code failure w unique h =
      let summary = summary_of failure in
      elim (transaction_atomic "falha ao iniciar transacao para registrar erro do job de insight: "
        "falha ao confirmar erro do job de insight: "
        (failure_body r lease max_attempts code summary) w) [
          | inl e ↦ ap (λ d. insight_of i d.insights) e ∙ h
          | inr (action, v, x, q) ↦
              let update = register_attempt r.server lease max_attempts code summary in
              let (row, u, e, rest) =
                continue-ok (register r lease max_attempts code summary (called w)).0
                  (register r lease max_attempts code summary (called w)).1
                  (λ j. announce r lease code summary j.status) v action x in
              let (e', y) =
                registered-ok (statement update (called w)).0 row (statement update (called w)).1 u
                  e in
              let (p, frame) = statement-ok update (called w) u row (λ k. (e' k, y k)) in
              let (k, a, names) =
                register_attempt-names r lease max_attempts code summary (called w) row u.db p in
              let (s, _) =
                failure_body-Registered r lease max_attempts code summary k a names (called w) v
                  action unique x in
              ap (λ d. insight_of i d.insights) q ∙ ap (insight_of i) s.insights_kept ∙ h
        ]

  insight_law :
      (w : World) → JobsAreUnique w → job_at i w.db.insight_jobs ≡ some j → IsStepLaw r HasInsight w
  insight_law w unique found = record {
    claim = record { framed = HasInsight-framed; claims = λ v w p seconds hv h lt free. h };
    tables = HasInsight-law.tables;
    saves = λ lease content ds. saves-HasInsight lease content ds w unique found;
    fails = λ lease n code failure. fails-HasInsight lease n code failure w unique;
    schedules = λ n. (schedule_due_retry_jobs-Keeps r HasInsight-law n).at w;
    passes = λ now drawn locked calls a b h. h;
    creates = λ x a b h. h;
  }

-- A job that is completed, or that failed for good, keeps its row as it is for ever, and so does its
-- insight, or the lack of one, whatever the workers do and whatever calls of the database fail: no
-- worker takes it again, its error is not lost, and the text of its insight is not overwritten.
pub ended_forever :
    (r : Repository) {w w' : World} (i : ℕ) (j : InsightJob)
    → Reach r w w'
    → JobsAreUnique w
    → job_at i w.db.insight_jobs ≡ some j
    → HasEnded j.status
    → (job_at i w'.db.insight_jobs ≡ some j)
      × (insight_of i w'.db.insights ≡ insight_of i w.db.insights)
ended_forever r i j here unique found ended = (found, refl)
ended_forever r {w} i j (next {u} s t) unique found ended =
    let (row, insight) = ended_forever r i j s unique found ended in
    let still = Reach-keeps r (JobsAreUnique-law r.server) s unique in
    (
      Step-keeps r (step_law r i j ended u still) t row,
      Step-keeps r (insight_law r i j ended (insight_of i w.db.insights) u still row) t insight,
    )
