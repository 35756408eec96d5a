-- ===== src/Postgres/Steps/Events.antt =====
-- What becomes of the events of the outbox and of the insights.
use mentor_ia_worker.Prelude.{map}
use mentor_ia_worker.Postgres.Tables.{Server}
use mentor_ia_worker.Postgres.Rows.{Repository}
use mentor_ia_worker.Postgres.Session.{World}
use mentor_ia_worker.Postgres.Extension.{
  Extends, Extends-refl, Extends-trans, event_label, insight_label,
}
use mentor_ia_worker.Postgres.JobLaw.{IsJobLaw}
use mentor_ia_worker.Postgres.Steps.{Reach, Reach-keeps}

-- Every event and every insight of an earlier world is still there, in its place, with what the
-- event says and about which job, and with the job and the student of the insight.
pub record KeepsRows (v w : World) : Type 0 where
  pub events : Extends (map event_label v.db.outbox_eventos) (map event_label w.db.outbox_eventos)
  pub insights : Extends (map insight_label v.db.insights) (map insight_label w.db.insights)

KeepsRows-law : (server : Server) (v : World) → IsJobLaw server (KeepsRows v)
KeepsRows-law server v = record {
  framed = record {
    calls = λ w os h. record { events = h.events; insights = h.insights };
    draws = λ w h. record { events = h.events; insights = h.insights };
    rollback = λ u w hu hw. record { events = hu.events; insights = hu.insights };
  };
  other_tables = λ w db e h. record {
    events =
        Extends-trans (map event_label v.db.outbox_eventos) (map event_label w.db.outbox_eventos)
          (map event_label db.outbox_eventos) h.events e.events;
    insights =
        Extends-trans (map insight_label v.db.insights) (map insight_label w.db.insights)
          (map insight_label db.insights) h.insights e.insights;
  };
  claims = λ u w p seconds hu h lt free. record { events = h.events; insights = h.insights };
  completes = λ w p h t. record { events = h.events; insights = h.insights };
  fails = λ w p n c s h t. record { events = h.events; insights = h.insights };
  requeues = λ w p h. record { events = h.events; insights = h.insights };
  passes = λ w now drawn locked calls a b h. record { events = h.events; insights = h.insights };
  creates = λ w j missing new h. record { events = h.events; insights = h.insights };
}

-- No event is ever taken out of the outbox, moved, or changed in what it says and about which job,
-- and no insight is taken away or given to another job, whatever operations the workers do, in
-- whatever order, and whatever calls of the database fail.
pub Reach-KeepsRows : (r : Repository) {w w' : World} → Reach r w w' → KeepsRows w w'
Reach-KeepsRows r {w} s = Reach-keeps r (KeepsRows-law r.server w) s (record {
  events = Extends-refl (map event_label w.db.outbox_eventos);
  insights = Extends-refl (map insight_label w.db.insights);
})
