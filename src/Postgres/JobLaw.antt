-- ===== src/Postgres/JobLaw.antt =====
-- Laws of the jobs: predicates on the world that every operation of the repository keeps because
-- the four ways in which it changes rows of `insight_jobs` keep them.
use mentor_ia_worker.Prelude.{
  ℕ, ◌<◌, ◌≤◌, ◌≡◌, refl, true, ◌&&◌, arith, none, List, [], ◌∷◌, ◌++◌, Bool, ℤ, update_where,
}
use mentor_ia_worker.Text.{Bytes}
use mentor_ia_worker.Domain.Errors.{Result, ok, err}
use mentor_ia_worker.Postgres.Tables.{
  Server, Status, pendente, processando, aguardando_retentativa, falhou, concluido, InsightJob,
  Database,
}
use mentor_ia_worker.Postgres.Extension.{IsExtension, IsQuiet}
use mentor_ia_worker.Postgres.Rows.{with_param, has_ids}
use mentor_ia_worker.Postgres.Rows.Laws.{row_at, job_key}
use mentor_ia_worker.Postgres.Session.{World, Outcome, Statement}
use mentor_ia_worker.Postgres.Session.Keeps.{IsFramed, StatementKeeps}
use mentor_ia_worker.Postgres.Begin.{claimed, is_free}
use mentor_ia_worker.Postgres.Save.{completed, is_leased, is_processing, holds_token}
use mentor_ia_worker.Postgres.Failure.{failed_attempt}
use mentor_ia_worker.Postgres.Schedule.{requeued}

-- An UPDATE of the jobs that pass a test.
abbrev pub changing : (InsightJob → Bool) → (InsightJob → InsightJob) → World → World
changing p f w = record w { db = record w.db { insight_jobs = update_where p f w.db.insight_jobs } }

-- A job as the application creates it.
pub record IsNew (j : InsightJob) : Type 0 where
  pub status : j.status ≡ pendente
  pub token : j.processing_token ≡ none
  pub lease : j.lease_expira_em ≡ none
  pub retry : j.proxima_tentativa_em ≡ none

-- A predicate that only what the statements do to the jobs can break.
pub record IsTableLaw (server : Server) (P : World → Type 0) : Type 0 where
  pub framed : IsFramed server P
  pub other_tables :
      (w : World) (db : Database) → IsExtension w.db db → P w → P (record w { db = db })

-- One that only what they do to the jobs, an insight and the news of a failure can break.
pub record IsQuietLaw (server : Server) (P : World → Type 0) : Type 0 where
  pub framed : IsFramed server P
  pub other_tables : (w : World) (db : Database) → IsQuiet w.db db → P w → P (record w { db = db })

pub quiet_law : {server : Server} {P : World → Type 0} → IsTableLaw server P → IsQuietLaw server P
quiet_law law = record {
  framed = law.framed;
  other_tables = λ w db quiet. law.other_tables w db quiet.extension;
}

-- One that a claim of free jobs keeps as well. The token of the claim is one that was drawn since
-- an earlier world in which the predicate held.
pub record IsClaimLaw (server : Server) (P : World → Type 0) : Type 0 where
  pub framed : IsFramed server P
  pub claims :
      (v w : World) (p : InsightJob → Bool) (seconds : ℕ)
      → P v
      → P w
      → v.drawn < w.drawn
      → ((j : InsightJob) → p j ≡ true → is_free w.now j ≡ true)
      → P (changing p (claimed w.now (server.new_uuid v.drawn) seconds) w)

-- One that jobs put back to 'pendente' keep.
pub record IsRequeueLaw (server : Server) (P : World → Type 0) : Type 0 where
  pub tables : IsQuietLaw server P
  pub requeues : (w : World) (p : InsightJob → Bool) → P w → P (changing p (requeued w.now) w)

-- One that is kept when the lease of a running job ends.
pub record IsSettleLaw (server : Server) (P : World → Type 0) : Type 0 where
  pub tables : IsTableLaw server P
  pub completes :
      (w : World) (p : InsightJob → Bool)
      → P w
      → ((j : InsightJob) → p j ≡ true → j.status ≡ processando)
      → P (changing p (completed w.now) w)
  pub fails :
      (w : World) (p : InsightJob → Bool) (max_attempts : ℤ) (code summary : Bytes)
      → P w
      → ((j : InsightJob) → p j ≡ true → j.status ≡ processando)
      → P (changing p (failed_attempt w.now max_attempts code summary) w)

-- One that every operation keeps.
pub record IsJobLaw (server : Server) (P : World → Type 0) : Type 0 where
  pub framed : IsFramed server P
  pub other_tables :
      (w : World) (db : Database) → IsExtension w.db db → P w → P (record w { db = db })
  pub claims :
      (v w : World) (p : InsightJob → Bool) (seconds : ℕ)
      → P v
      → P w
      → v.drawn < w.drawn
      → ((j : InsightJob) → p j ≡ true → is_free w.now j ≡ true)
      → P (changing p (claimed w.now (server.new_uuid v.drawn) seconds) w)
  pub completes :
      (w : World) (p : InsightJob → Bool)
      → P w
      → ((j : InsightJob) → p j ≡ true → j.status ≡ processando)
      → P (changing p (completed w.now) w)
  pub fails :
      (w : World) (p : InsightJob → Bool) (max_attempts : ℤ) (code summary : Bytes)
      → P w
      → ((j : InsightJob) → p j ≡ true → j.status ≡ processando)
      → P (changing p (failed_attempt w.now max_attempts code summary) w)
  pub requeues : (w : World) (p : InsightJob → Bool) → P w → P (changing p (requeued w.now) w)
  -- what goes on outside: time, the locks, the calls to come, and uuids for others
  pub passes :
      (w : World) (now drawn : ℕ) (locked : ℕ → Bool) (calls : List Outcome)
      → w.now ≤ now
      → w.drawn ≤ drawn
      → P w
      → P (record w { now = now; drawn = drawn; locked = locked; calls = calls })
  -- the application creates a job
  pub creates :
      (w : World) (j : InsightJob)
      → row_at job_key j.id w.db.insight_jobs ≡ none
      → IsNew j
      → P w
      → P (record w { db = record w.db { insight_jobs = w.db.insight_jobs ++ j ∷ [] } })

module _ {ℓ κ} {A : Type ℓ} {B : Type κ} {P : World → Type 0} where
  -- Converting a parameter changes nothing.
  pub with_param-keeps :
      (r : Result A) (s : A → Statement B)
      → ((a : A) → StatementKeeps P (s a))
      → StatementKeeps P (with_param r s)
  with_param-keeps (ok a) s k = k a
  with_param-keeps (err e) s k = record { at = λ w h. h }

module _ {server : Server} {P : World → Type 0} (law : IsJobLaw server P) where
  pub table_law : IsTableLaw server P
  table_law = record { framed = law.framed; other_tables = law.other_tables }

  pub claim_law : IsClaimLaw server P
  claim_law = record { framed = law.framed; claims = law.claims }

  pub requeue_law : IsRequeueLaw server P
  requeue_law = record { tables = quiet_law table_law; requeues = law.requeues }

  pub settle_law : IsSettleLaw server P
  settle_law = record { tables = table_law; completes = law.completes; fails = law.fails }

module _ {ℓ} {A : Type ℓ} {P : World → Type 0} {server : Server} (law : IsTableLaw server P) where
  -- A statement on other tables.
  pub elsewhere-keeps :
      (s : Statement A) → ((w : World) → IsExtension w.db (s w).1) → StatementKeeps P s
  elsewhere-keeps s extends = record { at = λ w h. law.other_tables w (s w).1 (extends w) h }

module _ {ℓ} {A : Type ℓ} {P : World → Type 0} {server : Server} (law : IsQuietLaw server P) where
  pub quietly-keeps : (s : Statement A) → ((w : World) → IsQuiet w.db (s w).1) → StatementKeeps P s
  quietly-keeps s quiet = record { at = λ w h. law.other_tables w (s w).1 (quiet w) h }

-- A job that passes the test for a lease is in 'processando'.
pub is_leased-status :
    (i a token : ℕ) (j : InsightJob) → is_leased i a token j ≡ true → j.status ≡ processando
is_leased-status i a token j h =
    at_status j.status (has_ids i a j) (holds_token token j.processing_token) h
  where
    at_status : (s : Status) (b c : Bool) → (b && (is_processing s && c)) ≡ true → s ≡ processando
    at_status processando b c q = refl
    at_status pendente b c q = ground arith
    at_status aguardando_retentativa b c q = ground arith
    at_status falhou b c q = ground arith
    at_status concluido b c q = ground arith
