-- ===== src/Postgres/Schedule/Effect.antt =====
-- ScheduleDueRetryJobs on the jobs that are not due.
use mentor_ia_worker.Prelude.{
  ℕ, ◌<◌, ◌≡◌, ◌≢◌, refl, sym, subst, ap, ◌∙◌, Bool, false, true, not, ◌&&◌, none, some, List, [],
  ◌∷◌, map, arith, update_where, length, All, take-All, sort_by-All, ==_iff,
}
use mentor_ia_worker.Text.{Bytes}
use mentor_ia_worker.Domain.{Message, OutboxType, insight_retry_requested}
use mentor_ia_worker.Domain.Errors.{Result, ok, err}
use mentor_ia_worker.Postgres.Tables.{Server, InsightJob, Status, job_at}
use mentor_ia_worker.Postgres.Rows.{Repository, has_ids, with_param}
use mentor_ia_worker.Postgres.Rows.Laws.{
  job_key, KeysUnique, row_at-key, row_at-update_where, KeysUnique-update_where,
}
use mentor_ia_worker.Postgres.Rows.Selection.{IsOther, select-IsOther}
use mentor_ia_worker.Postgres.Session.{
  World, Outcome, works, fails, reply_lost, first_outcome, called, answer, statement, labelled,
  relabel, continue, ◌>>◌, pure,
}
use mentor_ia_worker.Postgres.Session.Keeps.{
  IsFramed, Keeps, StatementKeeps, keeps_rules, Keeps-then, Keeps-bind, Keeps-draw, Keeps-pure,
  Keeps-labelled, Keeps-statement,
}
use mentor_ia_worker.Postgres.Failure.{insert_event}
use mentor_ia_worker.Postgres.Schedule.{
  is_due, is_waiting, due_jobs, due_messages, message_of, requeued, requeue_job, schedule_all,
  read_rows, schedule_body, schedule_due_retry_jobs,
}

abbrev is_ready : ℕ → (ℕ → Bool) → InsightJob → Bool
is_ready now locked j = is_due now j && not (locked j.id)

-- The worlds in which the job is as it was.
abbrev Still : World → ℕ → InsightJob → World → Type 0
Still w i j v =
    (job_at i v.db.insight_jobs ≡ some j)
    × KeysUnique job_key v.db.insight_jobs
    × (v.now ≡ w.now)
    × (v.locked ≡ w.locked)

Still-framed :
    (server : Server) (w : World) (i : ℕ) (j : InsightJob) → IsFramed server (Still w i j)
Still-framed server w i j = record {
  calls = λ v os h. h;
  draws = λ v h. h;
  rollback = λ u v hu hv. (hu.0, hu.1, hv.2, hv.3);
}

-- A message about another job.
abbrev IsElsewhere : Server → ℕ → Message → Type 0
IsElsewhere server i m = server.uuid_param m.job_id ≢ ok i

module _ (server : Server) (w : World) (i : ℕ) (j : InsightJob) where
  requeued_kept :
      (p q : Result ℕ)
      → p ≢ ok i
      → (v : World) → Still w i j v
      → Still w i j (record v {
        db =
            (with_param p
              (λ k. with_param q (λ a u. (
                ok (tt {0}),
                record u.db {
                  insight_jobs = update_where (has_ids k a) (requeued u.now) u.db.insight_jobs;
                },
              )))
              v).1;
      })
  requeued_kept (err e) q other v h = h
  requeued_kept (ok k) (err e) other v h = h
  requeued_kept (ok k) (ok a) other v h = (
    row_at-update_where job_key (has_ids k a) (requeued v.now) i v.db.insight_jobs (λ r. refl)
        ∙ rw h.0 (rw missed refl),
    KeysUnique-update_where job_key (has_ids k a) (requeued v.now) v.db.insight_jobs (λ r. refl)
        h.1,
    h.2,
    h.3,
  )
    where
      key_is : j.id ≡ i
      key_is = row_at-key job_key i j v.db.insight_jobs h.0

      differs : k ≢ i
      differs e = other (ap ok e)

      missed : has_ids k a j ≡ false
      missed = ground (arith, key_is, differs)

  requeue_job-kept :
      (m : Message) → IsElsewhere server i m → StatementKeeps (Still w i j) (requeue_job server m)
  unfolding requeue_job
  requeue_job-kept m other = record {
    at = λ v h. requeued_kept (server.uuid_param m.job_id) (server.uuid_param m.aluno_id) other v h;
  }

  insert_event-jobs :
      (id : ℕ) (job_id : Bytes) (tipo : OutboxType) (payload : Bytes) (v : World)
      → (insert_event server id job_id tipo payload v).1.insight_jobs ≡ v.db.insight_jobs
  unfolding insert_event
  insert_event-jobs id job_id tipo payload v = ground arith

  insert_event-kept :
      (id : ℕ) (job_id : Bytes) (tipo : OutboxType) (payload : Bytes)
      → StatementKeeps (Still w i j) (insert_event server id job_id tipo payload)
  insert_event-kept id job_id tipo payload = record {
    at = λ v h.
        subst
          (λ rows.
            (job_at i rows ≡ some j)
            × KeysUnique job_key rows
            × (v.now ≡ w.now)
            × (v.locked ≡ w.locked))
          (sym (insert_event-jobs id job_id tipo payload v)) h;
  }

  read_rows-kept : StatementKeeps (Still w i j) read_rows
  unfolding read_rows
  read_rows-kept = record { at = λ v h. h }

-- Jobs with other keys have messages about other jobs.
messages-IsElsewhere :
    (server : Server) (i : ℕ) (jobs : List InsightJob)
    → All (IsOther job_key i) jobs
    → All (IsElsewhere server i) (map (message_of server) jobs)
unfolding message_of
messages-IsElsewhere server i [] h = tt
messages-IsElsewhere server i (k ∷ jobs) h = (other, messages-IsElsewhere server i jobs h.1)
  where
    same : {a b : ℕ} → ok a ≡ ok b → a ≡ b
    same q = cc

    other : server.uuid_param (server.uuid_text k.id) ≢ ok i
    other q = cc (h.0, (==_iff k.id i).1 (same (sym (server.uuid_param-text k.id) ∙ q)))

due_jobs-IsOther :
    (limit : ℕ) (w : World) (i : ℕ) (j : InsightJob)
    → KeysUnique job_key w.db.insight_jobs
    → job_at i w.db.insight_jobs ≡ some j
    → is_ready w.now w.locked j ≡ false
    → All (IsOther job_key i) (due_jobs limit w)
unfolding due_jobs
due_jobs-IsOther limit w i j u e h = take-All (IsOther job_key i) limit _ (
    sort_by-All (IsOther job_key i) _ _
      (select-IsOther job_key (is_ready w.now w.locked) i j w.db.insight_jobs u e h))

module _ (r : Repository) (w : World) (i : ℕ) (j : InsightJob) where
  schedule_all-kept :
      (ms : List Message)
      → All (IsElsewhere r.server i) ms
      → Keeps (Still w i j) (schedule_all r ms)
  unfolding schedule_all
  schedule_all-kept [] h = search keeps_rules
  schedule_all-kept (m ∷ ms) h =
      Keeps-then _ _
        (Keeps-labelled _ _
          (Keeps-statement r.server framed _ (requeue_job-kept r.server w i j m h.0)))
        (Keeps-bind _ _ (Keeps-draw r.server framed) (λ id.
          Keeps-then _ _
            (Keeps-labelled "falha ao criar evento de outbox para retry: " _ (
              Keeps-statement r.server framed _ (
                insert_event-kept r.server w i j id m.job_id insight_retry_requested
                  (r.codec.marshal_message m))))
            (schedule_all-kept ms h.1)))
    where
      framed : IsFramed r.server (Still w i j)
      framed = Still-framed r.server w i j

  rest_kept :
      (ms : List Message)
      → All (IsElsewhere r.server i) ms
      → Keeps (Still w i j) (
          labelled "falha ao iterar jobs para retry: " (statement read_rows)
          >> (schedule_all r ms >> pure (length ms)))
  rest_kept ms h =
      Keeps-then _ _
        (Keeps-labelled _ _ (
          Keeps-statement r.server (Still-framed r.server w i j) _ (read_rows-kept r.server w i j)))
        (Keeps-then _ _ (schedule_all-kept ms h) (Keeps-pure (length ms)))

  -- The messages that were read are those of the jobs that are due.
  read_kept :
      (limit : ℕ) (o : Outcome) (v : World)
      → is_ready w.now w.locked j ≡ false
      → Still w i j v
      → let (x, u) = answer o (due_messages r.server limit v) (called v) in
        Still w i j
          (continue (relabel "falha ao buscar jobs para retry: " x) u (λ ms.
            labelled "falha ao iterar jobs para retry: " (statement read_rows)
            >> (schedule_all r ms >> pure (length ms)))).1
  unfolding due_messages
  read_kept limit works v idle h =
      (rest_kept (map (message_of r.server) (due_jobs limit v)) (
          messages-IsElsewhere r.server i (due_jobs limit v)
            (due_jobs-IsOther limit v i j h.1 h.0 (rw (h.2, h.3) idle)))).at
        (called v) h
  read_kept limit (fails e) v idle h = h
  read_kept limit (reply_lost e) v idle h = h

  schedule_body-kept :
      (limit : ℕ) → is_ready w.now w.locked j ≡ false → Keeps (Still w i j) (schedule_body r limit)
  unfolding schedule_body statement
  schedule_body-kept limit idle = record {
    at = λ v h. read_kept limit (first_outcome v.calls) v idle h;
  }

  schedule-kept :
      (limit : ℕ)
      → is_ready w.now w.locked j ≡ false
      → Keeps (Still w i j) (schedule_due_retry_jobs r limit)
  unfolding schedule_due_retry_jobs
  schedule-kept limit idle =
      search (keeps_rules, Still-framed r.server w i j, schedule_body-kept limit idle)

not_waiting : (s : Status) → s ≢ Status.aguardando_retentativa → is_waiting s ≡ false
not_waiting Status.pendente h = refl
not_waiting Status.processando h = refl
not_waiting Status.aguardando_retentativa h = absurd (h refl)
not_waiting Status.falhou h = refl
not_waiting Status.concluido h = refl

-- The ways in which a job can fail the WHERE of the SELECT: it does not wait for a retry (it may be
-- in 'processando' with a lease that has run out), it waits with no time for the retry (the
-- comparison with NULL is not true) or with one that has not come, or another transaction holds
-- its row (SKIP LOCKED).
pub data IsSkipped (w : World) (j : InsightJob) : Type 0 where
  not_waiting_job : j.status ≢ Status.aguardando_retentativa → IsSkipped w j
  without_time : j.proxima_tentativa_em ≡ none → IsSkipped w j
  later : (t : ℕ) → j.proxima_tentativa_em ≡ some t → w.now < t → IsSkipped w j
  locked_row : w.locked j.id ≡ true → IsSkipped w j

not_ready : (w : World) (j : InsightJob) → IsSkipped w j → is_ready w.now w.locked j ≡ false
not_ready w j (IsSkipped.not_waiting_job other) = rw (not_waiting j.status other) refl
not_ready w j (IsSkipped.without_time e) = rw e (ground arith)
not_ready w j (IsSkipped.later t e after) = rw e (ground arith)
not_ready w j (IsSkipped.locked_row e) = ground arith

-- ScheduleDueRetryJobs touches only the jobs that wait for a retry whose time has come: a job that
-- does not wait for one, one that waits with no time for it, or with a time that has not come, and
-- one whose row another transaction holds is left as it is, whatever calls of the database fail.
pub schedule_due_retry_jobs_keeps :
    (r : Repository) (limit : ℕ) (w : World) (i : ℕ) (j : InsightJob)
    → KeysUnique job_key w.db.insight_jobs
    → job_at i w.db.insight_jobs ≡ some j
    → IsSkipped w j
    → job_at i (schedule_due_retry_jobs r limit w).1.db.insight_jobs ≡ some j
schedule_due_retry_jobs_keeps r limit w i j unique found idle =
    ((schedule-kept r w i j limit (not_ready w j idle)).at w (found, unique, refl, refl)).0
