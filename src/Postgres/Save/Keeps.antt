-- ===== src/Postgres/Save/Keeps.antt =====
-- SaveInsightResult keeps every law of the jobs.
use mentor_ia_worker.Prelude.{ℕ, refl, Option, none, some, map, List, [], ◌∷◌}
use mentor_ia_worker.Text.{Bytes}
use mentor_ia_worker.Domain.{DisciplinePerformance, ProcessingLease}
use mentor_ia_worker.Postgres.Tables.{InsightRow, insight_of}
use mentor_ia_worker.Postgres.Rows.{Repository}
use mentor_ia_worker.Postgres.Session.{World}
use mentor_ia_worker.Postgres.Session.Keeps.{
  Keeps, StatementKeeps, keeps_rules, Keeps-then, Keeps-bind, Keeps-draw, Keeps-pure,
  Keeps-labelled, Keeps-statement,
}
use mentor_ia_worker.Postgres.Save.{
  is_leased, upserted, complete_job, upsert_insight, clear_links, insert_link, link_all, save_links,
  save_insight, save_content, save_body, save_insight_result,
}
use mentor_ia_worker.Postgres.JobLaw.{
  IsTableLaw, IsSettleLaw, with_param-keeps, elsewhere-keeps, is_leased-status,
}
use mentor_ia_worker.Postgres.Extension.{
  IsExtension-insights, IsExtension-links, map-appended, map-updated, insight_label, Extends,
}

upserted-Extends :
    (row : InsightRow) (old : Option InsightRow) (rows : List InsightRow)
    → Extends (map insight_label rows) (map insight_label (upserted row old rows))
unfolding upserted
upserted-Extends row none rows = map-appended insight_label rows (row ∷ [])
upserted-Extends row (some old) rows = map-updated insight_label _ _ rows (λ r. refl)

module _ {P : World → Type 0} (r : Repository) (law : IsTableLaw r.server P) where
  upsert_insight-keeps :
      (lease : ProcessingLease) (id : ℕ) (content : Bytes)
      → StatementKeeps P (upsert_insight r.server lease id content)
  unfolding upsert_insight
  upsert_insight-keeps lease id content =
      with_param-keeps (r.server.uuid_param lease.message.aluno_id) _ λ a.
        with_param-keeps (r.server.uuid_param lease.message.job_id) _ λ i.
          with_param-keeps (r.server.text_param content) _ λ _. elsewhere-keeps law _ (λ w.
            IsExtension-insights w.db _
              (upserted-Extends _ (insight_of i w.db.insights) w.db.insights))

  clear_links-keeps : (insight : ℕ) → StatementKeeps P (clear_links insight)
  unfolding clear_links
  clear_links-keeps insight = elsewhere-keeps law _ (λ w. IsExtension-links w.db _ refl refl refl)

  insert_link-keeps : (id insight d : ℕ) → StatementKeeps P (insert_link id insight d)
  unfolding insert_link
  insert_link-keeps id insight d =
      elsewhere-keeps law _ (λ w. IsExtension-links w.db _ refl refl refl)

  link_all-Keeps :
      (insight : ℕ) (ds : List DisciplinePerformance) → Keeps P (link_all r.server insight ds)
  unfolding link_all
  link_all-Keeps insight [] = Keeps-pure tt
  link_all-Keeps insight (d ∷ ds) = Keeps-bind _ _ (Keeps-draw r.server law.framed) λ id.
      Keeps-then _ _
        (Keeps-labelled "falha ao associar disciplina ao insight: " _
          (Keeps-statement r.server law.framed _ (insert_link-keeps id insight d.id)))
        (link_all-Keeps insight ds)

  save_links-Keeps :
      (ds : List DisciplinePerformance) (insight : ℕ) → Keeps P (save_links r.server ds insight)
  unfolding save_links
  save_links-Keeps ds insight = search (keeps_rules, law.framed, clear_links-keeps, link_all-Keeps)

  save_insight-Keeps :
      (lease : ProcessingLease) (content : Bytes) (ds : List DisciplinePerformance)
      → Keeps P (save_insight r.server lease content ds)
  unfolding save_insight
  save_insight-Keeps lease content ds =
      search (keeps_rules, law.framed, upsert_insight-keeps, save_links-Keeps) depth 9

  pub save_content-Keeps :
      (lease : ProcessingLease) (content : Bytes) (ds : List DisciplinePerformance) (affected : ℕ)
      → Keeps P (save_content r.server lease content ds affected)
  unfolding save_content
  save_content-Keeps lease content ds affected = search (keeps_rules, save_insight-Keeps) depth 9

module _ {P : World → Type 0} (r : Repository) (law : IsSettleLaw r.server P) where
  complete_job-keeps : (lease : ProcessingLease) → StatementKeeps P (complete_job r.server lease)
  unfolding complete_job
  complete_job-keeps lease = with_param-keeps (r.server.uuid_param lease.message.job_id) _ λ i.
      with_param-keeps (r.server.uuid_param lease.message.aluno_id) _ λ a. record {
        at =
            λ w h. law.completes w (is_leased i a lease.token) h (is_leased-status i a lease.token);
      }

  save_body-Keeps :
      (lease : ProcessingLease) (content : Bytes) (ds : List DisciplinePerformance)
      → Keeps P (save_body r.server lease content ds)
  unfolding save_body
  save_body-Keeps lease content ds =
      search (keeps_rules, law.tables.framed, complete_job-keeps, save_content-Keeps r law.tables)
        depth 9

  pub save_insight_result-Keeps :
      (lease : ProcessingLease) (content : Bytes) (ds : List DisciplinePerformance)
      → Keeps P (save_insight_result r lease content ds)
  unfolding save_insight_result
  save_insight_result-Keeps lease content ds =
      search (keeps_rules, law.tables.framed, save_body-Keeps)
