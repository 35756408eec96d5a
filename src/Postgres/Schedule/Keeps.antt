-- ===== src/Postgres/Schedule/Keeps.antt =====
-- ScheduleDueRetryJobs keeps every law of the jobs.
use mentor_ia_worker.Prelude.{ℕ, refl, List, [], ◌∷◌}
use mentor_ia_worker.Text.{Bytes}
use mentor_ia_worker.Domain.{Message, insight_retry_requested}
use mentor_ia_worker.Postgres.Rows.{Repository, has_ids}
use mentor_ia_worker.Postgres.Session.{World}
use mentor_ia_worker.Postgres.Session.Keeps.{
  Keeps, StatementKeeps, keeps_rules, Keeps-then, Keeps-bind, Keeps-draw, Keeps-pure,
  Keeps-labelled, Keeps-statement,
}
use mentor_ia_worker.Postgres.Schedule.{
  due_messages, requeue_job, schedule_all, read_rows, schedule_body, schedule_due_retry_jobs,
}
use mentor_ia_worker.Postgres.Failure.{insert_event}
use mentor_ia_worker.Postgres.Extension.{IsQuiet-appended}
use mentor_ia_worker.Postgres.JobLaw.{IsRequeueLaw, with_param-keeps, quietly-keeps}

module _ {P : World → Type 0} (r : Repository) (law : IsRequeueLaw r.server P) where
  requeue_job-keeps : (m : Message) → StatementKeeps P (requeue_job r.server m)
  unfolding requeue_job
  requeue_job-keeps m = with_param-keeps (r.server.uuid_param m.job_id) _ λ i.
      with_param-keeps (r.server.uuid_param m.aluno_id) _
        λ a. record { at = λ w h. law.requeues w (has_ids i a) h }

  due_messages-keeps : (limit : ℕ) → StatementKeeps P (due_messages r.server limit)
  unfolding due_messages
  due_messages-keeps limit = record { at = λ w h. h }

  read_rows-keeps : StatementKeeps P read_rows
  unfolding read_rows
  read_rows-keeps = record { at = λ w h. h }

  insert_event-keeps :
      (id : ℕ) (job_id payload : Bytes)
      → StatementKeeps P (insert_event r.server id job_id insight_retry_requested payload)
  unfolding insert_event
  insert_event-keeps id job_id payload = with_param-keeps (r.server.uuid_param job_id) _ λ i.
      with_param-keeps (r.server.jsonb_param payload) _
        λ json. quietly-keeps law.tables _ (λ w. IsQuiet-appended w.db _ refl)

  schedule_all-Keeps : (ms : List Message) → Keeps P (schedule_all r ms)
  unfolding schedule_all
  schedule_all-Keeps [] = Keeps-pure tt
  schedule_all-Keeps (m ∷ ms) =
      Keeps-then _ _
        (Keeps-labelled "falha ao marcar job para retry: " _
          (Keeps-statement r.server law.tables.framed _ (requeue_job-keeps m)))
        (Keeps-bind _ _ (Keeps-draw r.server law.tables.framed) λ id.
          Keeps-then _ _
            (Keeps-labelled "falha ao criar evento de outbox para retry: " _ (
              Keeps-statement r.server law.tables.framed _
                (insert_event-keeps id m.job_id (r.codec.marshal_message m))))
            (schedule_all-Keeps ms))

  schedule_body-Keeps : (limit : ℕ) → Keeps P (schedule_body r limit)
  unfolding schedule_body
  schedule_body-Keeps limit =
      search
        (keeps_rules, law.tables.framed, due_messages-keeps, read_rows-keeps, schedule_all-Keeps)
        depth 12

  pub schedule_due_retry_jobs-Keeps : (limit : ℕ) → Keeps P (schedule_due_retry_jobs r limit)
  unfolding schedule_due_retry_jobs
  schedule_due_retry_jobs-Keeps limit = search (keeps_rules, law.tables.framed, schedule_body-Keeps)
