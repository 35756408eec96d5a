-- ===== src/Postgres/Save/Atomic.antt =====
-- SaveInsightResult: all or nothing, and only with the token that the job carries.
use mentor_ia_worker.Prelude.{
  ℕ, suc, ◌≡◌, ◌≢◌, sym, subst, ap, ◌∙◌, ◌⊎◌, inl, inr, true, some, List, arith, ltb, update_where,
}
use mentor_ia_worker.Text.{Bytes}
use mentor_ia_worker.Domain.{DisciplinePerformance, ProcessingLease}
use mentor_ia_worker.Domain.Errors.{Result, ok, sentinel, lease_lost}
use mentor_ia_worker.Postgres.Tables.{InsightJob, Database, job_at, insight_of, Server}
use mentor_ia_worker.Postgres.Rows.{Repository}
use mentor_ia_worker.Postgres.Rows.Laws.{job_key, KeysUnique}
use mentor_ia_worker.Postgres.Session.{World, called}
use mentor_ia_worker.Postgres.Session.Laws.{
  step-ok, require-then, transaction_atomic, transaction-ok,
}
use mentor_ia_worker.Postgres.Begin.Lease.{Names}
use mentor_ia_worker.Postgres.Save.{
  is_leased, completed, save_insight, complete_job, upserted, upsert_insight, save_links,
  save_content, save_body, save_insight_result,
}
use mentor_ia_worker.Postgres.Save.Effect.{
  Saved, Upserted, Written, upsert_insight-written, complete_job-ok, upsert_insight-ok,
  save_links-ok,
}

-- The token that passes the test is the job's.
pub is_leased-token :
    (i a token : ℕ) (j : InsightJob)
    → is_leased i a token j ≡ true
    → j.processing_token ≡ some token
is_leased-token i a token j h = ground arith

module _ (server : Server) (lease : ProcessingLease) (content : Bytes)
    (disciplines : List DisciplinePerformance) (i a : ℕ)
    (names : Names server lease.message i a) where
  -- The insert under the next uuid, and the links.
  abbrev Contents : World → World → Type 0
  Contents w w' =
      (n : ℕ) × (v : World) × Upserted i content w.db n v.db
      × (save_links server disciplines n v ≡ (ok tt, w'))
      × Written content i a w.db.insights v.db.insights

  save_insight-ok :
      (w w' : World) → save_insight server lease content disciplines w ≡ (ok tt, w') → Contents w w'
  unfolding save_insight
  save_insight-ok w w' h =
      let new_id = server.new_uuid w.drawn in
      let drew = record w { drawn = suc w.drawn } in
      let (n, v, e, frame, rest) =
        step-ok "falha ao salvar insight: " (upsert_insight server lease new_id content)
          (save_links server disciplines) drew w' tt h in
      (
        n,
        v,
        upsert_insight-ok server lease content disciplines i a names drew new_id n v.db e,
        rest,
        (
          new_id,
          upsert_insight-written server lease content disciplines i a names drew new_id n v.db e,
        ),
      )

  save_content-ok :
      (n : ℕ) (w w' : World)
      → save_content server lease content disciplines n w ≡ (ok tt, w')
      → (ltb 0 n ≡ true) × Contents w w'
  unfolding save_content
  save_content-ok n w w' h =
      let (positive, rest) =
        require-then (ltb 0 n) (sentinel lease_lost)
          (λ _. save_insight server lease content disciplines) w w' tt h in
      (positive, save_insight-ok w w' rest)

  saved :
      (j : InsightJob) (w v w' : World)
      → job_at i w.db.insight_jobs ≡ some j
      → is_leased i a lease.token j ≡ true
      → job_at i v.db.insight_jobs ≡ some (completed w.now j)
      → v.db ≡ record w.db {
        insight_jobs = update_where (is_leased i a lease.token) (completed w.now) w.db.insight_jobs;
      }
      → Contents v w'
      → Saved server lease content disciplines i a w.now w.db w'.db
  saved j w v w' found leased done written
        (n, u, (row, stored, same_content, id, jobs, links, events), last, (new_id, stored_as)) =
      let final = save_links-ok server lease content disciplines i a names n u w' last in
      record {
        job = j;
        found = found;
        leased = leased;
        finished = ap (λ d. job_at i d.insight_jobs) final ∙ ap (job_at i) jobs ∙ done;
        insight = row;
        stored = ap (λ d. insight_of i d.insights) final ∙ stored;
        content_stored = same_content;
        drawn = u.drawn;
        linked =
            ap (λ d. d.insights_disciplinas) final
            ∙ rw (id, links ∙ ap (λ d. d.insights_disciplinas) written);
        events_kept =
            ap (λ d. d.outbox_eventos) final ∙ events ∙ ap (λ d. d.outbox_eventos) written;
        written = (
          new_id,
          ap (λ d. d.insights) final
              ∙ stored_as
              ∙ ap
                  (λ d.
                    upserted (record { id = new_id; aluno_id = a; job_id = i; conteudo = content })
                      (insight_of i d.insights) d.insights)
                  written,
        );
      }

  pub save_body-Saved :
      (w w' : World)
      → KeysUnique job_key w.db.insight_jobs
      → save_body server lease content disciplines w ≡ (ok tt, w')
      → Saved server lease content disciplines i a w.now w.db w'.db
  unfolding save_body
  save_body-Saved w w' unique h =
      let (n, v, e, frame, rest) =
        step-ok "falha ao marcar job como concluido: " (complete_job server lease)
          (save_content server lease content disciplines) w w' tt h in
      let (positive, contents) = save_content-ok n v w' rest in
      let (j, found, leased, done, written) =
        complete_job-ok server lease content disciplines i a names w n v.db unique positive e in
      saved j w v w' found leased done written contents

-- SaveInsightResult is all or nothing, whatever calls of the database fail: the tables stay as they
-- were, or the job that carried the token of the lease is completed, its insight has the content,
-- and its links are those of the disciplines. A call that returns no error has done the latter.
pub save_insight_result_atomic :
    (r : Repository) (lease : ProcessingLease) (content : Bytes) (ds : List DisciplinePerformance)
    (w : World) (i a : ℕ)
    → Names r.server lease.message i a
    → KeysUnique job_key w.db.insight_jobs
    → let (result, w') = save_insight_result r lease content ds w in
      ((w'.db ≡ w.db) ⊎ Saved r.server lease content ds i a w.now w.db w'.db)
      × (result ≡ ok tt → Saved r.server lease content ds i a w.now w.db w'.db)
unfolding save_insight_result
save_insight_result_atomic r lease content ds w i a names unique = (either, on_success)
  where
    body : World → Result (Unit {0}) × World
    body = save_body r.server lease content ds

    in_body :
        (v : World)
        → body (called w) ≡ (ok tt, v)
        → Saved r.server lease content ds i a w.now w.db v.db
    in_body v e = save_body-Saved r.server lease content ds i a names (called w) v unique e

    either :
        ((save_insight_result r lease content ds w).1.db ≡ w.db)
        ⊎ Saved r.server lease content ds i a w.now w.db
            (save_insight_result r lease content ds w).1.db
    either =
        elim (transaction_atomic "falha ao iniciar transacao para salvar insight: "
          "falha ao confirmar insight: " body w) [
            | inl e ↦ inl e
            | inr (t, v, e, q) ↦
                inr (subst (Saved r.server lease content ds i a w.now w.db) (sym q) (in_body v e))
          ]

    on_success :
        (save_insight_result r lease content ds w).0 ≡ ok tt
        → Saved r.server lease content ds i a w.now w.db
            (save_insight_result r lease content ds w).1.db
    on_success h =
        let w' = (save_insight_result r lease content ds w).1 in
        let (v, e, q, _) =
          transaction-ok "falha ao iniciar transacao para salvar insight: "
            "falha ao confirmar insight: " body w w' tt (λ k. (h k, w')) in
        subst (Saved r.server lease content ds i a w.now w.db) q (in_body v e)

-- A lease that the job no longer carries, because it ran out and the job was taken again or was
-- settled, saves nothing: no table changes, and the call does not succeed.
pub save_insight_result_stale :
    (r : Repository) (lease : ProcessingLease) (content : Bytes) (ds : List DisciplinePerformance)
    (w : World) (i a : ℕ)
    → Names r.server lease.message i a
    → KeysUnique job_key w.db.insight_jobs
    → ((j : InsightJob)
        → job_at i w.db.insight_jobs ≡ some j
        → j.processing_token ≢ some lease.token)
    → let (result, w') = save_insight_result r lease content ds w in
      (w'.db ≡ w.db) × (result ≢ ok tt)
save_insight_result_stale r lease content ds w i a names unique stale =
    let (either, on_success) = save_insight_result_atomic r lease content ds w i a names unique in
    (elim either [ inl e ↦ e | inr s ↦ absurd (impossible _ s) ], λ h. impossible _ (on_success h))
  where
    impossible : (db : Database) → Saved r.server lease content ds i a w.now w.db db → ⊥
    impossible db s = stale s.job s.found (is_leased-token i a lease.token s.job s.leased)
