-- ===== src/Postgres/Events/Keeps.antt =====
-- The operations on the outbox keep every law of the jobs.
use mentor_ia_worker.Prelude.{ℕ, refl, ℤ}
use mentor_ia_worker.Text.{Bytes}
use mentor_ia_worker.Domain.{OutboxEvent}
use mentor_ia_worker.Domain.Errors.{Error, Result, ok, err}
use mentor_ia_worker.Postgres.Tables.{OutboxRow}
use mentor_ia_worker.Postgres.Rows.{Repository}
use mentor_ia_worker.Postgres.Session.{World}
use mentor_ia_worker.Postgres.Session.Keeps.{Keeps, StatementKeeps, keeps_rules}
use mentor_ia_worker.Postgres.Schedule.{read_rows}
use mentor_ia_worker.Postgres.Events.{
  claim_events, claim_body, claim_pending_outbox_events, publish_row, mark_outbox_event_published,
  fail_row, failure_marked, mark_outbox_event_failed,
}
use mentor_ia_worker.Postgres.Extension.{IsQuiet-updated}
use mentor_ia_worker.Postgres.JobLaw.{IsQuietLaw, with_param-keeps, quietly-keeps}

module _ {P : World → Type 0} (r : Repository) (law : IsQuietLaw r.server P) where
  claim_events-keeps :
      (limit token seconds : ℕ) → StatementKeeps P (claim_events limit token seconds)
  unfolding claim_events
  claim_events-keeps limit token seconds =
      quietly-keeps law _ (λ w. IsQuiet-updated w.db _ _ (λ e. refl))

  read_rows-keeps : StatementKeeps P read_rows
  unfolding read_rows
  read_rows-keeps = record { at = λ w h. h }

  claim_body-Keeps : (limit seconds : ℕ) → Keeps P (claim_body r limit seconds)
  unfolding claim_body
  claim_body-Keeps limit seconds =
      search (keeps_rules, law.framed, claim_events-keeps, read_rows-keeps) depth 9

  pub claim_pending_outbox_events-Keeps :
      (limit : ℕ) (lock : ℤ) → Keeps P (claim_pending_outbox_events r limit lock)
  unfolding claim_pending_outbox_events
  claim_pending_outbox_events-Keeps limit lock =
      search (keeps_rules, law.framed, claim_body-Keeps) depth 9

  publish_row-keeps : (event : OutboxEvent) → StatementKeeps P (publish_row event)
  unfolding publish_row
  publish_row-keeps event = quietly-keeps law _ (λ w. IsQuiet-updated w.db _ _ (λ e. refl))

  pub mark_outbox_event_published-Keeps :
      (event : OutboxEvent) → Keeps P (mark_outbox_event_published event)
  unfolding mark_outbox_event_published
  mark_outbox_event_published-Keeps event =
      search (keeps_rules, law.framed, publish_row-keeps) depth 9

  fail_row-keeps :
      (event : OutboxEvent) (max_attempts : ℤ) (summary : Bytes) (seconds : ℕ)
      → StatementKeeps P (fail_row r.server event max_attempts summary seconds)
  unfolding fail_row
  fail_row-keeps event max_attempts summary seconds =
      with_param-keeps (r.server.text_param summary) _
        λ _. quietly-keeps law _ (λ w. IsQuiet-updated w.db _ _ (λ e. refl))

  failure_marked-Keeps : (row : Result OutboxRow) → Keeps P (failure_marked row)
  unfolding failure_marked
  failure_marked-Keeps (ok row) = search keeps_rules
  failure_marked-Keeps (err e) = search keeps_rules

  pub mark_outbox_event_failed-Keeps :
      (event : OutboxEvent) (max_attempts : ℤ) (failure : Error)
      → Keeps P (mark_outbox_event_failed r event max_attempts failure)
  unfolding mark_outbox_event_failed
  mark_outbox_event_failed-Keeps event max_attempts failure =
      search (keeps_rules, law.framed, fail_row-keeps, failure_marked-Keeps) depth 9
