-- ===== src/Postgres/Save/Effect.antt =====
-- SaveInsightResult as one step on the tables.
use mentor_ia_worker.Prelude.{
  ℕ, suc, ◌≡◌, refl, sym, subst, ap, ◌∙◌, inl, inr, true, false, Option, none, some, [], ◌∷◌, List,
  arith, ltb, ◌==◌, if◌then◌else◌, length, select, update_where, ==_iff,
}
use mentor_ia_worker.Text.{Bytes}
use mentor_ia_worker.Domain.{DisciplinePerformance, ProcessingLease}
use mentor_ia_worker.Domain.Errors.{Error, ok, err, Result-cases}
use mentor_ia_worker.Postgres.Tables.{
  Server, InsightJob, Database, InsightRow, LinkRow, job_at, insight_of,
}
use mentor_ia_worker.Postgres.Rows.Laws.{
  job_key, KeysUnique, row_at-update_where, row_at-updated, row_at-append, row_at-key,
}
use mentor_ia_worker.Postgres.Session.{World}
use mentor_ia_worker.Postgres.Session.Laws.{step-ok}
use mentor_ia_worker.Postgres.Begin.Lease.{Names}
use mentor_ia_worker.Postgres.Save.{
  is_leased, completed, complete_job, upserted, upserted_id, upsert_insight, clear_links, with_link,
  insert_link, link_all, save_links,
}

pub is_leased-id : (i a token : ℕ) (j : InsightJob) → is_leased i a token j ≡ true → j.id ≡ i
is_leased-id i a token j h = ground arith

-- The links that the loop adds, with the uuids drawn on the way.
pub links_added : Server → ℕ → ℕ → List DisciplinePerformance → List LinkRow → List LinkRow
links_added server drawn insight [] links = links
links_added server drawn insight (d ∷ ds) links =
    links_added server (suc drawn) insight ds (with_link (server.new_uuid drawn) insight d.id links)

added :
    (server : Server) (insight : ℕ) (ds : List DisciplinePerformance) (v : World) {n : ℕ}
    {db : Database}
    → v.db ≡ db
    → v.drawn ≡ n
    → record v.db {
      insights_disciplinas = links_added server v.drawn insight ds v.db.insights_disciplinas;
    }
      ≡ record db { insights_disciplinas = links_added server n insight ds db.insights_disciplinas }
added server insight ds v q p = rw (q, p)

link_all-ok :
    (server : Server) (insight : ℕ) (ds : List DisciplinePerformance) (w w' : World)
    → link_all server insight ds w ≡ (ok tt, w')
    → w'.db ≡ record w.db {
      insights_disciplinas = links_added server w.drawn insight ds w.db.insights_disciplinas;
    }
unfolding link_all links_added insert_link
link_all-ok server insight [] w w' h = ap (λ q. q.1.db) (sym h)
link_all-ok server insight (d ∷ ds) w w' h =
    let (t, v, e, frame, rest) =
      step-ok "falha ao associar disciplina ao insight: "
        (insert_link (server.new_uuid w.drawn) insight d.id) (λ _. link_all server insight ds)
        (record w { drawn = suc w.drawn }) w' tt h in
    let q : v.db
        ≡ (insert_link (server.new_uuid w.drawn) insight d.id
            (record w { drawn = suc w.drawn })).1 =
      ap (λ x. x.1) (sym e) in
    link_all-ok server insight ds v w' rest ∙ added server insight ds v q (sym frame.drawn)

-- The table after the INSERT under some uuid, or the UPDATE of the insight of the job.
abbrev pub Written : Bytes → ℕ → ℕ → List InsightRow → List InsightRow → Type 0
Written content i a before after =
    (id : ℕ) × (after
      ≡ upserted (record { id = id; aluno_id = a; job_id = i; conteudo = content })
          (insight_of i before) before)

-- The job, the insight and its links before and after a saved result.
pub record Saved (server : Server) (lease : ProcessingLease) (content : Bytes)
    (disciplines : List DisciplinePerformance) (i a now : ℕ) (before after : Database)
    : Type 0 where
  pub job : InsightJob
  pub found : job_at i before.insight_jobs ≡ some job
  pub leased : is_leased i a lease.token job ≡ true
  pub finished : job_at i after.insight_jobs ≡ some (completed now job)
  pub insight : InsightRow
  pub stored : insight_of i after.insights ≡ some insight
  pub content_stored : insight.conteudo ≡ content
  pub drawn : ℕ
  pub linked :
      after.insights_disciplinas
      ≡ links_added server drawn insight.id disciplines (
          select
            (λ l. if l.insight_id == insight.id then false else true)
            before.insights_disciplinas)
  pub events_kept : after.outbox_eventos ≡ before.outbox_eventos
  pub written : Written content i a before.insights after.insights

abbrev pub insight_job : InsightRow → ℕ
insight_job r = r.job_id

abbrev pub Upserted : ℕ → Bytes → Database → ℕ → Database → Type 0
Upserted i content before n db =
    (row : InsightRow) × (insight_of i db.insights ≡ some row)
    × (row.conteudo ≡ content)
    × (row.id ≡ n)
    × (db.insight_jobs ≡ before.insight_jobs)
    × (db.insights_disciplinas ≡ before.insights_disciplinas)
    × (db.outbox_eventos ≡ before.outbox_eventos)

upserted-stored :
    (row : InsightRow) (before : Database) (old : Option InsightRow)
    → insight_of row.job_id before.insights ≡ old
    → Upserted row.job_id row.conteudo before
        (upserted_id row old)
        (record before { insights = upserted row old before.insights })
unfolding upserted upserted_id
upserted-stored row before none e =
    (row, row_at-append insight_job row before.insights e, refl, refl, refl, refl, refl)
upserted-stored row before (some old) e = (
  record old { conteudo = row.conteudo },
  row_at-update_where insight_job _ (λ r. record r { conteudo = row.conteudo }) row.job_id
        before.insights (λ r. refl)
      ∙ rw e (
          rw (
            (==_iff old.job_id row.job_id).1
              (row_at-key insight_job row.job_id old before.insights e))),
  refl,
  refl,
  refl,
  refl,
  refl,
)

module _ (server : Server) (lease : ProcessingLease) (content : Bytes)
    (disciplines : List DisciplinePerformance) (i a : ℕ)
    (names : Names server lease.message i a) where
  pub complete_job-update :
      (w : World)
      → complete_job server lease w ≡ (
        ok (length (select (is_leased i a lease.token) w.db.insight_jobs)),
        record w.db {
          insight_jobs =
              update_where (is_leased i a lease.token) (completed w.now) w.db.insight_jobs;
        },
      )
  unfolding complete_job
  complete_job-update w = rw (names.job, names.aluno)

  ok_injective : {m n : ℕ} → ok m ≡ ok n → m ≡ n
  ok_injective h = cc

  pub complete_job-ok :
      (w : World) (n : ℕ) (db : Database)
      → KeysUnique job_key w.db.insight_jobs
      → ltb 0 n ≡ true
      → complete_job server lease w ≡ (ok n, db)
      → (j : InsightJob) × (job_at i w.db.insight_jobs ≡ some j)
        × (is_leased i a lease.token j ≡ true)
        × (job_at i db.insight_jobs ≡ some (completed w.now j))
        × (db ≡ record w.db {
          insight_jobs =
              update_where (is_leased i a lease.token) (completed w.now) w.db.insight_jobs;
        })
  complete_job-ok w n db unique positive h =
      let e = sym (complete_job-update w) ∙ h in
      let (j, found, leased, after) =
        row_at-updated job_key (is_leased i a lease.token) (completed w.now) i w.db.insight_jobs
          (is_leased-id i a lease.token) (λ j. refl) unique
          (ap (ltb 0) (ok_injective (ap (λ q. q.0) e)) ∙ positive) in
      let written = sym (ap (λ q. q.1) e) in
      (j, found, leased, ap (λ d. job_at i d.insight_jobs) written ∙ after, written)

  abbrev new_row : ℕ → InsightRow
  new_row new_id = record { id = new_id; aluno_id = a; job_id = i; conteudo = content }

  abbrev with_insight : World → ℕ → Database
  with_insight w new_id = record w.db {
    insights = upserted (new_row new_id) (insight_of i w.db.insights) w.db.insights;
  }

  upsert_insight-stored :
      (w : World) (new_id : ℕ) (t : Unit {0})
      → server.text_param content ≡ ok t
      → upsert_insight server lease new_id content w
        ≡ (ok (upserted_id (new_row new_id) (insight_of i w.db.insights)), with_insight w new_id)
  unfolding upsert_insight
  upsert_insight-stored w new_id t e = rw (names.aluno, names.job, e)

  upsert_insight-refused :
      (w : World) (new_id : ℕ) (x : Error)
      → server.text_param content ≡ err x
      → upsert_insight server lease new_id content w ≡ (err x, w.db)
  unfolding upsert_insight
  upsert_insight-refused w new_id x e = rw (names.aluno, names.job, e)

  pub upsert_insight-ok :
      (w : World) (new_id n : ℕ) (db : Database)
      → upsert_insight server lease new_id content w ≡ (ok n, db)
      → (row : InsightRow) × (insight_of i db.insights ≡ some row)
        × (row.conteudo ≡ content)
        × (row.id ≡ n)
        × (db.insight_jobs ≡ w.db.insight_jobs)
        × (db.insights_disciplinas ≡ w.db.insights_disciplinas)
        × (db.outbox_eventos ≡ w.db.outbox_eventos)
  upsert_insight-ok w new_id n db h = elim (Result-cases (server.text_param content)) [
    | inl (t, e) ↦
        let q = sym (upsert_insight-stored w new_id t e) ∙ h in
        subst (λ d. Upserted i content w.db n d) (ap (λ x. x.1) q)
          (subst (λ k. Upserted i content w.db k (with_insight w new_id))
            (ok_injective (ap (λ x. x.0) q))
            (upserted-stored (new_row new_id) w.db (insight_of i w.db.insights) refl))
    | inr (x, e) ↦ cc (h, upsert_insight-refused w new_id x e)
  ]

  pub upsert_insight-written :
      (w : World) (new_id n : ℕ) (db : Database)
      → upsert_insight server lease new_id content w ≡ (ok n, db)
      → db.insights ≡ upserted (new_row new_id) (insight_of i w.db.insights) w.db.insights
  upsert_insight-written w new_id n db h = elim (Result-cases (server.text_param content)) [
    | inl (t, e) ↦ ap (λ x. x.1.insights) (sym h ∙ upsert_insight-stored w new_id t e)
    | inr (x, e) ↦ cc (h, upsert_insight-refused w new_id x e)
  ]

  pub save_links-ok :
      (insight : ℕ) (w w' : World)
      → save_links server disciplines insight w ≡ (ok tt, w')
      → w'.db ≡ record w.db {
        insights_disciplinas = links_added server w.drawn insight disciplines (
            select
              (λ l. if l.insight_id == insight then false else true)
              w.db.insights_disciplinas);
      }
  unfolding save_links clear_links
  save_links-ok insight w w' h =
      let (t, v, e, frame, rest) =
        step-ok "falha ao limpar disciplinas do insight: " (clear_links insight)
          (λ _. link_all server insight disciplines) w w' tt h in
      link_all-ok server insight disciplines v w' rest
      ∙ added server insight disciplines v (ap (λ q. q.1) (sym e)) (sym frame.drawn)
