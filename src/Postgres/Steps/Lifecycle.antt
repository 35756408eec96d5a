-- ===== src/Postgres/Steps/Lifecycle.antt =====
-- The life of a job, as a machine with a status and a count of attempts.
pub mod Runs
pub mod Endings
use mentor_ia_worker.Prelude.{
  ℕ, suc, ◌≡◌, ◌≢◌, ◌⊎◌, refl, sym, ap, subst, ◌∙◌, inl, inr, Bool, true, false, Option, none, some,
  List, [], ◌∷◌, ◌++◌, ℤ, if◌then◌else◌, arith, ltb,
}
use mentor_ia_worker.Text.{Bytes}
use mentor_ia_worker.Postgres.Tables.{
  Server, Status, pendente, processando, aguardando_retentativa, falhou, concluido, InsightJob,
  Database, job_at,
}
use mentor_ia_worker.Postgres.Rows.{Repository}
use mentor_ia_worker.Postgres.Rows.Laws.{
  job_key, KeysUnique, KeysUnique-update_where, KeysUnique-append,
}
use mentor_ia_worker.Postgres.Rows.Lookup.{row_at-updating, row_at-append_kept, IsChanged}
use mentor_ia_worker.Postgres.Session.{World}
use mentor_ia_worker.Postgres.Session.Keeps.{IsFramed}
use mentor_ia_worker.Postgres.Begin.{is_free, is_free_in, claimed}
use mentor_ia_worker.Postgres.Begin.Keeps.{begin_processing-Keeps}
use mentor_ia_worker.Postgres.Save.{completed}
use mentor_ia_worker.Postgres.Save.Keeps.{save_insight_result-Keeps}
use mentor_ia_worker.Postgres.Failure.{failed_attempt, is_exhausted}
use mentor_ia_worker.Postgres.Failure.Keeps.{register_failure-Keeps}
use mentor_ia_worker.Postgres.Schedule.{requeued, schedule_due_retry_jobs}
use mentor_ia_worker.Postgres.Schedule.Effect.{schedule_due_retry_jobs_keeps}
use mentor_ia_worker.Postgres.Schedule.Keeps.{schedule_due_retry_jobs-Keeps}
use mentor_ia_worker.Postgres.Events.Keeps.{
  claim_pending_outbox_events-Keeps, mark_outbox_event_published-Keeps,
  mark_outbox_event_failed-Keeps,
}
use mentor_ia_worker.Postgres.JobLaw.{
  IsJobLaw, IsTableLaw, IsClaimLaw, IsRequeueLaw, IsSettleLaw, changing,
}
use mentor_ia_worker.Postgres.Steps.{
  Step, Reach, here, next, begins, saves, fails, schedules, claims, publishes, refuses, passes,
  creates, Reach-keeps,
}

-- What one operation may do to the status of a job and to the count of its attempts.
pub data Transition : Status → ℕ → Status → ℕ → Type 0 where
  takes : {n : ℕ} → Transition pendente n processando (suc n)
  takes_over : {n : ℕ} → Transition processando n processando (suc n)
  retries : {n : ℕ} → Transition aguardando_retentativa n processando (suc n)
  finishes : {n : ℕ} → Transition processando n concluido n
  gives_up : {n : ℕ} → Transition processando n falhou n
  postpones : {n : ℕ} → Transition processando n aguardando_retentativa n
  requeues : {n : ℕ} → Transition aguardando_retentativa n pendente n

-- What one operation may do to a job: nothing at all, or one transition of the machine.
abbrev pub Moves : InsightJob → InsightJob → Type 0
Moves j k = (k ≡ j) ⊎ Transition j.status j.tentativas k.status k.tentativas

pub free_takes :
    (now n : ℕ) (s : Status) (retry_at lease_end : Option ℕ)
    → is_free_in now s retry_at lease_end ≡ true
    → Transition s n processando (suc n)
free_takes now n pendente retry_at lease_end h = takes
free_takes now n processando retry_at lease_end h = takes_over
free_takes now n aguardando_retentativa retry_at lease_end h = retries
free_takes now n falhou retry_at lease_end h = cc
free_takes now n concluido retry_at lease_end h = cc

ends_running :
    (b : Bool) (n : ℕ) → Transition processando n (if b then falhou else aguardando_retentativa) n
ends_running true n = gives_up
ends_running false n = postpones

-- A claimed job is not free at the same time, if its lease is worth a second.
claimed_not_free :
    (now token seconds : ℕ) (j : InsightJob)
    → ltb 0 seconds ≡ true
    → is_free now (claimed now token seconds j) ≢ true
claimed_not_free now token seconds j long h = ground arith

module _ (server : Server) (i : ℕ) (w : World) (j : InsightJob) where
  -- The job is as it was, or taken once.
  abbrev pub TakenOnce : World → Type 0
  TakenOnce v =
      (v.now ≡ w.now)
      × ((k : InsightJob) × (job_at i v.db.insight_jobs ≡ some k)
          × ((k ≡ j)
              ⊎ (Transition j.status j.tentativas k.status k.tentativas
                  × (is_free w.now k ≢ true))))

  pub TakenOnce-framed : IsFramed server TakenOnce
  TakenOnce-framed = record {
    calls = λ v os h. h;
    draws = λ v h. h;
    rollback = λ u v hu hv. (hv.0, hu.1);
  }

  pub TakenOnce-claim :
      (p : InsightJob → Bool) (token seconds : ℕ) (v : World)
      → ltb 0 seconds ≡ true
      → ((k : InsightJob) → p k ≡ true → is_free v.now k ≡ true)
      → TakenOnce v
      → TakenOnce (changing p (claimed v.now token seconds) v)
  TakenOnce-claim p token seconds v long free (same_time, (k, found, before)) =
      let (x, after, change) =
        row_at-updating job_key p (claimed v.now token seconds) i k v.db.insight_jobs (λ y. refl)
          found in
      (
        same_time,
        (
          x,
          after,
          elim change [
            | inl (t, e) ↦ elim before [
              | inl same ↦ inr (
                subst (λ y. Transition y.status y.tentativas x.status x.tentativas) same
                    (subst (λ y. Transition k.status k.tentativas y.status y.tentativas) (sym e)
                      (free_takes v.now k.tentativas k.status k.proxima_tentativa_em
                        k.lease_expira_em (free k t))),
                subst (λ y. is_free w.now y ≢ true) (sym e)
                    (subst (λ n. is_free n (claimed v.now token seconds k) ≢ true) same_time
                      (claimed_not_free v.now token seconds k long)),
              )
              | inr (_, taken) ↦
                  absurd (taken (subst (λ n. is_free n k ≡ true) same_time (free k t)))
            ]
            | inr e ↦
                subst
                  (λ y.
                    (y ≡ j)
                    ⊎ (Transition j.status j.tentativas y.status y.tentativas
                        × (is_free w.now y ≢ true)))
                  (sym e) before
          ],
        ),
      )

-- The job is as it was, or settled once.
module _ (server : Server) (i : ℕ) (j : InsightJob) where
  abbrev pub SettledOnce : World → Type 0
  SettledOnce v =
      (k : InsightJob) × (job_at i v.db.insight_jobs ≡ some k)
      × ((k ≡ j)
          ⊎ (Transition j.status j.tentativas k.status k.tentativas × (k.status ≢ processando)))

  SettledOnce-changing :
      (p : InsightJob → Bool) (f : InsightJob → InsightJob) (v : World)
      → ((k : InsightJob) → (f k).id ≡ k.id)
      → ((k : InsightJob) → p k ≡ true → k.status ≡ processando)
      → ((k : InsightJob)
          → Transition processando k.tentativas (f k).status (f k).tentativas
            × ((f k).status ≢ processando))
      → SettledOnce v
      → SettledOnce (changing p f v)
  SettledOnce-changing p f v keeps runs ends (k, found, before) =
      let (x, after, change) = row_at-updating job_key p f i k v.db.insight_jobs keeps found in
      (
        x,
        after,
        elim change [
          | inl (t, e) ↦ elim before [
            | inl same ↦ inr (
                subst
                  (λ y.
                    Transition j.status j.tentativas y.status y.tentativas
                    × (y.status ≢ processando))
                  (sym e)
                  (
                    subst (λ y. Transition y.status y.tentativas (f k).status (f k).tentativas) same
                        (subst (λ s. Transition s k.tentativas (f k).status (f k).tentativas)
                          (sym (runs k t)) (ends k).0),
                    (ends k).1,
                  ))
            | inr (_, settled) ↦ absurd (settled (runs k t))
          ]
          | inr e ↦
              subst
                (λ y.
                  (y ≡ j)
                  ⊎ (Transition j.status j.tentativas y.status y.tentativas
                      × (y.status ≢ processando)))
                (sym e) before
        ],
      )

  pub SettledOnce-law : IsSettleLaw server SettledOnce
  SettledOnce-law = record {
    tables = record {
      framed = record { calls = λ w os h. h; draws = λ w h. h; rollback = λ v w hv hw. hv };
      other_tables = λ w db same h. (h.0, ap (job_at i) same.jobs ∙ h.1, h.2);
    };
    completes = λ w p h runs.
        SettledOnce-changing p (completed w.now) w (λ k. refl) runs (λ k. (finishes, λ e. cc)) h;
    fails = λ w p max_attempts code summary h runs.
        SettledOnce-changing p (failed_attempt w.now max_attempts code summary) w (λ k. refl) runs
          (λ k. (
            ends_running (is_exhausted max_attempts k.tentativas) k.tentativas,
            not_running (is_exhausted max_attempts k.tentativas),
          ))
          h;
  }
    where
      not_running : (b : Bool) → (if b then falhou else aguardando_retentativa) ≢ processando
      not_running true e = cc
      not_running false e = cc

  -- The job is as it was, or put back once.
  abbrev pub RequeuedOnce : World → Type 0
  RequeuedOnce v =
      (k : InsightJob) × (job_at i v.db.insight_jobs ≡ some k)
      × ((k ≡ j) ⊎ ((k.status ≡ pendente) × (k.tentativas ≡ j.tentativas)))

  pub RequeuedOnce-law : IsRequeueLaw server RequeuedOnce
  RequeuedOnce-law = record {
    tables = record {
      framed = record { calls = λ w os h. h; draws = λ w h. h; rollback = λ v w hv hw. hv };
      other_tables = λ w db same h. (h.0, ap (job_at i) same.extension.jobs ∙ h.1, h.2);
    };
    requeues = λ w p (k, found, before).
        let (x, after, change) =
          row_at-updating job_key p (requeued w.now) i k w.db.insight_jobs (λ y. refl) found in
        (
          x,
          after,
          elim change [
            | inl (t, e) ↦ inr (
              ap (λ y. y.status) e,
              ap (λ y. y.tentativas) e
                  ∙ elim before [ inl same ↦ ap (λ y. y.tentativas) same | inr (_, count) ↦ count ],
            )
            | inr e ↦
                subst (λ y. (y ≡ j) ⊎ ((y.status ≡ pendente) × (y.tentativas ≡ j.tentativas)))
                  (sym e) before
          ],
        );
  }
