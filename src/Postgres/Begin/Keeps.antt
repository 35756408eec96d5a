-- ===== src/Postgres/Begin/Keeps.antt =====
-- BeginProcessing keeps every law of the jobs.
use mentor_ia_worker.Prelude.{
  ℕ, suc, ◌<◌, ◌≡◌, ap, subst, Bool, true, false, ◌&&◌, arith, pos, ltb, ltb_ℤ,
}
use mentor_ia_worker.Domain.{Message, ProcessingLease}
use mentor_ia_worker.Domain.Errors.{Error, ok, plain}
use mentor_ia_worker.Postgres.Rows.{Repository, whole_seconds, has_ids, update_jobs}
use mentor_ia_worker.Postgres.Session.{World, require, draw, ◌>>=◌}
use mentor_ia_worker.Postgres.Session.Keeps.{IsFramed, Keeps, StatementKeeps}
use mentor_ia_worker.Postgres.Begin.{
  is_free, claim_job, job_exists, claim_with, begin_processing, acquired,
}
use mentor_ia_worker.Postgres.Begin.Lease.{begin_processing-claim_with}
use mentor_ia_worker.Postgres.Begin.Exclusive.{claim_with-Keeps}
use mentor_ia_worker.Postgres.JobLaw.{IsClaimLaw, with_param-keeps}

module _ {P : World → Type 0} (r : Repository) (law : IsClaimLaw r.server P) where
  -- The worlds after the draw of the token.
  abbrev Later : World → World → Type 0
  Later v w = P w × (v.drawn < w.drawn)

  Later-framed : (v : World) → IsFramed r.server (Later v)
  Later-framed v = record {
    calls = λ w os h. (law.framed.calls w os h.0, h.1);
    draws = λ w h. (law.framed.draws w h.0, omega (arith, h.1));
    rollback = λ u w hu hw. (law.framed.rollback u w hu.0 hw.0, hw.1);
  }

  claim_job-keeps :
      (v : World) (m : Message) (seconds : ℕ)
      → P v
      → StatementKeeps (Later v) (claim_job r.server m (r.server.new_uuid v.drawn) seconds)
  unfolding claim_job update_jobs
  claim_job-keeps v m seconds h = with_param-keeps (r.server.uuid_param m.job_id) _ λ i.
      with_param-keeps (r.server.uuid_param m.aluno_id) _ λ a. record {
        at = λ w k. (
          law.claims v w (λ j. has_ids i a j && is_free w.now j) seconds h k.0 k.1
              (λ j e. free (has_ids i a j) (is_free w.now j) e),
          k.1,
        );
      }
    where
      free : (b c : Bool) → (b && c) ≡ true → c ≡ true
      free true c e = e
      free false c e = cc

  job_exists-keeps : (v : World) (m : Message) → StatementKeeps (Later v) (job_exists r.server m)
  unfolding job_exists
  job_exists-keeps v m =
      with_param-keeps (r.server.uuid_param m.job_id) _
        λ i. with_param-keeps (r.server.uuid_param m.aluno_id) _ λ a. record { at = λ w h. h }

  begun_keeps :
      (v : World) (m : Message) (b c : Bool) (e e' : Error)
      → P v
      → P
          ((require b e >>= λ _.
              draw r.server >>= λ token. require c e' >>= λ _. claim_with r m token)
            v).1
  begun_keeps v m false c e e' h = h
  begun_keeps v m true false e e' h = law.framed.draws v h
  begun_keeps v m true true e e' h =
      ((claim_with-Keeps {P = Later v} r m (Later-framed v) (job_exists-keeps v m)
          (r.server.new_uuid v.drawn) (claim_job-keeps v m (whole_seconds r.lease_duration) h)).at
        (record v { drawn = suc v.drawn }) (law.framed.draws v h, omega arith)).0

  pub begin_processing-Keeps : (m : Message) → Keeps P (begin_processing r m)
  unfolding begin_processing
  begin_processing-Keeps m = record {
    at = λ v h.
        begun_keeps v m (ltb_ℤ (pos 0) r.lease_duration) (ltb 0 (whole_seconds r.lease_duration))
          (plain "leaseDuration deve ser maior que zero")
          (plain "leaseDuration deve ter pelo menos um segundo") h;
  }

-- A lease costs a uuid.
pub begin_processing-drawn :
    (r : Repository) (m : Message) (w w' : World) (lease : ProcessingLease)
    → begin_processing r m w ≡ (ok (acquired lease), w')
    → w.drawn < w'.drawn
begin_processing-drawn r m w w' lease h =
    subst (λ u. w.drawn < u.drawn) (ap (λ q. q.1) (begin_processing-claim_with r m w w' lease h))
      ((claim_with-Keeps {P = λ u. w.drawn < u.drawn} r m
          (record {
            calls = λ u os h. h;
            draws = λ u h. omega (arith, h);
            rollback = λ u v hu hv. hv;
          })
          exists_keeps (r.server.new_uuid w.drawn) claim_keeps).at
        (record w { drawn = suc w.drawn }) (omega arith))
  where
    exists_keeps : StatementKeeps (λ u. w.drawn < u.drawn) (job_exists r.server m)
    exists_keeps = record { at = λ u h. h }

    claim_keeps :
        StatementKeeps
          (λ u. w.drawn < u.drawn)
          (claim_job r.server m (r.server.new_uuid w.drawn) (whole_seconds r.lease_duration))
    claim_keeps = record { at = λ u h. h }
