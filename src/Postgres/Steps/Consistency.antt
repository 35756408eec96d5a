-- ===== src/Postgres/Steps/Consistency.antt =====
-- What the columns of a job say together, in every state that the operations can reach.
use mentor_ia_worker.Prelude.{
  ℕ, ◌≡◌, refl, sym, subst, Bool, none, some, List, [], ◌∷◌, ℤ, All, All-append, All-update_where,
  update_where, Bool-cases, inl, inr, ◌+◌, ◌*◌,
}
use mentor_ia_worker.Text.{Bytes}
use mentor_ia_worker.Postgres.Tables.{
  Server, pendente, processando, aguardando_retentativa, falhou, concluido, InsightJob,
}
use mentor_ia_worker.Postgres.Rows.{Repository}
use mentor_ia_worker.Postgres.Rows.Laws.{
  job_key, KeysUnique, KeysUnique-update_where, KeysUnique-append,
}
use mentor_ia_worker.Postgres.Session.{World}
use mentor_ia_worker.Postgres.Begin.{claimed}
use mentor_ia_worker.Postgres.Save.{completed}
use mentor_ia_worker.Postgres.Failure.{failed_attempt, is_exhausted, backoff_seconds}
use mentor_ia_worker.Postgres.Schedule.{requeued}
use mentor_ia_worker.Postgres.JobLaw.{IsJobLaw}
use mentor_ia_worker.Postgres.Steps.{Reach, Reach-keeps}

-- A token and a lease while the job runs and at no other time, the time of the next attempt while
-- it waits for one and at no other time, and an error code after a failure.
pub data IsConsistent (j : InsightJob) : Type 0 where
  fresh :
      j.status ≡ pendente
      → j.processing_token ≡ none
      → j.lease_expira_em ≡ none
      → j.proxima_tentativa_em ≡ none
      → IsConsistent j
  running :
      (token until : ℕ)
      → j.status ≡ processando
      → j.processing_token ≡ some token
      → j.lease_expira_em ≡ some until
      → j.proxima_tentativa_em ≡ none
      → IsConsistent j
  waiting :
      (at : ℕ) (code : Bytes)
      → j.status ≡ aguardando_retentativa
      → j.processing_token ≡ none
      → j.lease_expira_em ≡ none
      → j.proxima_tentativa_em ≡ some at
      → j.erro_codigo ≡ some code
      → IsConsistent j
  failed :
      (code : Bytes)
      → j.status ≡ falhou
      → j.processing_token ≡ none
      → j.lease_expira_em ≡ none
      → j.proxima_tentativa_em ≡ none
      → j.erro_codigo ≡ some code
      → IsConsistent j
  done :
      (at : ℕ)
      → j.status ≡ concluido
      → j.processing_token ≡ none
      → j.lease_expira_em ≡ none
      → j.proxima_tentativa_em ≡ none
      → j.concluido_em ≡ some at
      → IsConsistent j

failed_attempt-IsConsistent :
    (now : ℕ) (max_attempts : ℤ) (code summary : Bytes) (j : InsightJob)
    → IsConsistent (failed_attempt now max_attempts code summary j)
failed_attempt-IsConsistent now max_attempts code summary j =
    elim (Bool-cases (is_exhausted max_attempts j.tentativas)) [
      | inl t ↦ failed code (rw t refl) refl refl (rw t refl) refl
      | inr t ↦
          waiting (now + 1000 * backoff_seconds j.tentativas) code (rw t refl) refl refl (rw t refl)
            refl
    ]

-- The tables of jobs whose identifiers are unique and whose rows are consistent.
abbrev pub JobsAreConsistent : World → Type 0
JobsAreConsistent w = All IsConsistent w.db.insight_jobs × KeysUnique job_key w.db.insight_jobs

changing-JobsAreConsistent :
    (p : InsightJob → Bool) (f : InsightJob → InsightJob) (rows : List InsightJob)
    → ((j : InsightJob) → IsConsistent (f j))
    → ((j : InsightJob) → (f j).id ≡ j.id)
    → All IsConsistent rows × KeysUnique job_key rows
    → All IsConsistent (update_where p f rows) × KeysUnique job_key (update_where p f rows)
changing-JobsAreConsistent p f rows after same h = (
  All-update_where IsConsistent p f rows (λ j _. after j) h.0,
  KeysUnique-update_where job_key p f rows same h.1,
)

JobsAreConsistent-law : (server : Server) → IsJobLaw server JobsAreConsistent
JobsAreConsistent-law server = record {
  framed = record { calls = λ w os h. h; draws = λ w h. h; rollback = λ v w hv hw. hv };
  other_tables = λ w db same h.
      subst (λ rows. All IsConsistent rows × KeysUnique job_key rows) (sym same.jobs) h;
  claims = λ v w p seconds hv h lt _.
      changing-JobsAreConsistent p (claimed w.now (server.new_uuid v.drawn) seconds)
        w.db.insight_jobs
        (λ j. running (server.new_uuid v.drawn) (w.now + 1000 * seconds) refl refl refl refl)
        (λ j. refl) h;
  completes = λ w p h _.
      changing-JobsAreConsistent p (completed w.now) w.db.insight_jobs
        (λ j. done w.now refl refl refl refl refl) (λ j. refl) h;
  fails = λ w p n c s h _.
      changing-JobsAreConsistent p (failed_attempt w.now n c s) w.db.insight_jobs
        (failed_attempt-IsConsistent w.now n c s) (λ j. refl) h;
  requeues = λ w p h.
      changing-JobsAreConsistent p (requeued w.now) w.db.insight_jobs
        (λ j. fresh refl refl refl refl) (λ j. refl) h;
  passes = λ w now drawn locked calls a b h. h;
  creates = λ w j missing new h. (
    All-append IsConsistent w.db.insight_jobs (j ∷ []) h.0
        (fresh new.status new.token new.lease new.retry, tt),
    KeysUnique-append job_key j w.db.insight_jobs missing h.1,
  );
}

-- Whatever the workers do and in whatever order, with whatever calls of the database failing, the
-- jobs stay consistent and their identifiers unique.
pub Reach-JobsAreConsistent :
    (r : Repository) {w w' : World} → Reach r w w' → JobsAreConsistent w → JobsAreConsistent w'
Reach-JobsAreConsistent r s h = Reach-keeps r (JobsAreConsistent-law r.server) s h
