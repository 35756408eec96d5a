-- ===== src/Postgres/Failure/Keeps.antt =====
-- RegisterFailure keeps every law of the jobs.
use mentor_ia_worker.Prelude.{ℕ, ℤ}
use mentor_ia_worker.Text.{Bytes}
use mentor_ia_worker.Domain.{ProcessingLease, OutboxType}
use mentor_ia_worker.Domain.Errors.{Error, Result, ok, err}
use mentor_ia_worker.Postgres.Tables.{
  Status, pendente, processando, aguardando_retentativa, falhou, concluido, InsightJob,
}
use mentor_ia_worker.Postgres.Rows.{Repository, update_jobs}
use mentor_ia_worker.Postgres.Session.{World}
use mentor_ia_worker.Postgres.Session.Keeps.{Keeps, StatementKeeps, keeps_rules}
use mentor_ia_worker.Postgres.Save.{is_leased}
use mentor_ia_worker.Postgres.Failure.{
  register_attempt, insert_event, registered, announce, register, failure_body, register_failure,
}
use mentor_ia_worker.Postgres.JobLaw.{
  IsTableLaw, IsSettleLaw, with_param-keeps, elsewhere-keeps, is_leased-status,
}
use mentor_ia_worker.Postgres.Extension.{IsExtension-events, map-appended, event_label}

module _ {P : World → Type 0} (r : Repository) (law : IsTableLaw r.server P) where
  pub insert_event-keeps :
      (id : ℕ) (job_id : Bytes) (tipo : OutboxType) (payload : Bytes)
      → StatementKeeps P (insert_event r.server id job_id tipo payload)
  unfolding insert_event
  insert_event-keeps id job_id tipo payload = with_param-keeps (r.server.uuid_param job_id) _ λ i.
      with_param-keeps (r.server.jsonb_param payload) _ λ json.
        elsewhere-keeps law _
          (λ w. IsExtension-events w.db _ (map-appended event_label w.db.outbox_eventos _))

  registered-Keeps : (row : Result InsightJob) → Keeps P (registered row)
  unfolding registered
  registered-Keeps (ok j) = search keeps_rules
  registered-Keeps (err e) = search keeps_rules

  pub announce-Keeps :
      (lease : ProcessingLease) (code summary : Bytes) (s : Status)
      → Keeps P (announce r lease code summary s)
  unfolding announce
  announce-Keeps lease code summary falhou =
      search (keeps_rules, law.framed, insert_event-keeps) depth 9
  announce-Keeps lease code summary pendente = search keeps_rules
  announce-Keeps lease code summary processando = search keeps_rules
  announce-Keeps lease code summary aguardando_retentativa = search keeps_rules
  announce-Keeps lease code summary concluido = search keeps_rules

module _ {P : World → Type 0} (r : Repository) (law : IsSettleLaw r.server P) where
  register_attempt-keeps :
      (lease : ProcessingLease) (max_attempts : ℤ) (code summary : Bytes)
      → StatementKeeps P (register_attempt r.server lease max_attempts code summary)
  unfolding register_attempt update_jobs
  register_attempt-keeps lease max_attempts code summary =
      with_param-keeps (r.server.uuid_param lease.message.job_id) _ λ i.
        with_param-keeps (r.server.uuid_param lease.message.aluno_id) _ λ a.
          with_param-keeps (r.server.text_param code) _ λ _.
            with_param-keeps (r.server.text_param summary) _ λ _. record {
              at = λ w h.
                  law.fails w (is_leased i a lease.token) max_attempts code summary h
                    (is_leased-status i a lease.token);
            }

  failure_body-Keeps :
      (lease : ProcessingLease) (max_attempts : ℤ) (code summary : Bytes)
      → Keeps P (failure_body r lease max_attempts code summary)
  unfolding failure_body register
  failure_body-Keeps lease max_attempts code summary =
      search
        (
          keeps_rules,
          law.tables.framed,
          register_attempt-keeps,
          registered-Keeps r law.tables,
          announce-Keeps r law.tables,
        )
        depth 9

  pub register_failure-Keeps :
      (lease : ProcessingLease) (max_attempts : ℤ) (code : Bytes) (failure : Error)
      → Keeps P (register_failure r lease max_attempts code failure)
  unfolding register_failure
  register_failure-Keeps lease max_attempts code failure =
      search (keeps_rules, law.tables.framed, failure_body-Keeps)
