-- ===== src/Postgres/Steps/Accounting/Saving.antt =====
-- SaveInsightResult accounts for the job that it completes.
use mentor_ia_worker.Prelude.{
  ℕ, suc, ◌≡◌, ◌≢◌, refl, sym, ap, subst, ◌∙◌, inl, inr, List, [], ◌∷◌, ◌++◌, arith, ◌==◌,
  update_where, if◌then◌else◌,
}
use mentor_ia_worker.Text.{Bytes}
use mentor_ia_worker.Domain.{DisciplinePerformance, ProcessingLease}
use mentor_ia_worker.Domain.Errors.{ok}
use mentor_ia_worker.Postgres.Tables.{InsightRow, Database, job_at}
use mentor_ia_worker.Postgres.Counting.{
  count, insights_of, is_failure_of, count-appended, row_at-count,
}
use mentor_ia_worker.Postgres.Rows.{Repository}
use mentor_ia_worker.Postgres.Rows.Laws.{with_param-ok}
use mentor_ia_worker.Postgres.Session.{World, called}
use mentor_ia_worker.Postgres.Session.Laws.{step-ok, transaction_atomic}
use mentor_ia_worker.Postgres.Begin.Lease.{Names}
use mentor_ia_worker.Postgres.Save.{
  is_leased, completed, upserted, complete_job, save_content, save_body, save_insight_result,
}
use mentor_ia_worker.Postgres.Save.Effect.{Saved, Written, complete_job-update, insight_job}
use mentor_ia_worker.Postgres.Save.Atomic.{save_body-Saved}
use mentor_ia_worker.Postgres.Save.Keeps.{save_content-Keeps}
use mentor_ia_worker.Postgres.Steps.Lifecycle.Runs.{JobsAreUnique}
use mentor_ia_worker.Postgres.Steps.Accounting.{
  IsAccounted, AllAccounted, due, failures_due, insights_due, due-changed, counts_after,
}
use mentor_ia_worker.Postgres.Steps.Accounting.Settling.{jobs_law, due_running, due-elsewhere}

module _ (r : Repository) (lease : ProcessingLease) (content : Bytes)
    (ds : List DisciplinePerformance) where
  pub complete_job-names :
      (w : World) (n : ℕ) (db : Database)
      → complete_job r.server lease w ≡ (ok n, db)
      → (i : ℕ) × (a : ℕ) × Names r.server lease.message i a
  unfolding complete_job
  complete_job-names w n db h =
      let (i, e, g) = with_param-ok (r.server.uuid_param lease.message.job_id) _ w n db h in
      let (a, q, _) = with_param-ok (r.server.uuid_param lease.message.aluno_id) _ w n db g in
      (i, a, record { job = e; aluno = q })

  -- The insight of a job that had none.
  inserted :
      (i a : ℕ) (before after : List InsightRow)
      → Written content i a before after
      → count (λ x. x.job_id == i) before ≡ 0
      → (row : InsightRow) × (row.job_id ≡ i) × (after ≡ before ++ row ∷ [])
  unfolding upserted
  inserted i a before after (id, e) none_yet =
      let row : InsightRow = record { id = id; aluno_id = a; job_id = i; conteudo = content } in
      (row, refl, e ∙ rw (row_at-count insight_job i before none_yet) refl)

  Saved-AllAccounted :
      (i a now : ℕ) (before after : Database)
      → Saved r.server lease content ds i a now before after
      → after.insight_jobs
        ≡ update_where (is_leased i a lease.token) (completed now) before.insight_jobs
      → ((k : ℕ) → IsAccounted before k)
      → (k : ℕ) → IsAccounted after k
  Saved-AllAccounted i a now before after s jobs h k = record {
    failures =
        ap (count (is_failure_of k)) s.events_kept
        ∙ (h k).failures
        ∙ sym (
            ap (λ rows. due failures_due (job_at k rows)) jobs
            ∙ due-changed failures_due (is_leased i a lease.token) (completed now) k
                before.insight_jobs (λ j. refl)
                (λ j own t. sym (due_running failures_due i a lease.token j refl t)));
    insights =
        counts_after insights_due i (λ n. insights_of n before) (λ n. insights_of n after)
          before.insight_jobs after.insight_jobs
          (λ n other.
            ap (λ rows. due insights_due (job_at n rows)) jobs
            ∙ due-elsewhere insights_due i a lease.token (completed now) before.insight_jobs
                (λ j. refl) n other)
          (λ n other. counted n ∙ missed n other)
          (counted i ∙ found_one ∙ sym (ap (due insights_due) s.finished)) (λ n. (h n).insights) k;
  }
    where
      none_yet : insights_of i before ≡ 0
      none_yet =
          (h i).insights
          ∙ ap (due insights_due) s.found
          ∙ due_running insights_due i a lease.token s.job refl s.leased

      new_row :
          (row : InsightRow) × (row.job_id ≡ i) × (after.insights ≡ before.insights ++ row ∷ [])
      new_row = inserted i a before.insights after.insights s.written none_yet

      counted :
          (n : ℕ)
          → insights_of n after
            ≡ (if i == n then suc (insights_of n before) else insights_of n before)
      counted n =
          ap (count (λ x. x.job_id == n)) new_row.2
          ∙ count-appended (λ x. x.job_id == n) before.insights new_row.0
          ∙ ap (λ m. if m == n then suc (insights_of n before) else insights_of n before) new_row.1

      missed :
          (n : ℕ)
          → n ≢ i
          → (if i == n then suc (insights_of n before) else insights_of n before)
            ≡ insights_of n before
      missed n other = ground (arith, other)

      found_one : (if i == i then suc (insights_of i before) else insights_of i before) ≡ 1
      found_one = ground (arith, none_yet)

  save_body-AllAccounted :
      (w w' : World)
      → JobsAreUnique w
      → AllAccounted w
      → save_body r.server lease content ds w ≡ (ok tt, w')
      → AllAccounted w'
  unfolding save_body
  save_body-AllAccounted w w' unique h e =
      let (n, v, done, frame, rest) =
        step-ok "falha ao marcar job como concluido: " (complete_job r.server lease)
          (save_content r.server lease content ds) w w' tt e in
      let (i, a, names) = complete_job-names w n v.db done in
      let s = save_body-Saved r.server lease content ds i a names w w' unique e in
      let written =
        ap (λ q. q.1) (sym done ∙ complete_job-update r.server lease content ds i a names w) in
      let jobs : w'.db.insight_jobs ≡ v.db.insight_jobs =
        subst (λ q. q.1.db.insight_jobs ≡ v.db.insight_jobs) rest
          ((save_content-Keeps r (jobs_law r.server v.db.insight_jobs) lease content ds n).at v
            refl) in
      Saved-AllAccounted i a w.now w.db w'.db s (jobs ∙ ap (λ d. d.insight_jobs) written) h

  pub save_insight_result-AllAccounted :
      (w : World)
      → JobsAreUnique w
      → AllAccounted w
      → AllAccounted (save_insight_result r lease content ds w).1
  unfolding save_insight_result
  save_insight_result-AllAccounted w unique h =
      elim (transaction_atomic "falha ao iniciar transacao para salvar insight: "
        "falha ao confirmar insight: " (save_body r.server lease content ds) w) [
          | inl e ↦ subst (λ d. (i : ℕ) → IsAccounted d i) (sym e) h
          | inr (t, v, e, q) ↦
              subst (λ d. (i : ℕ) → IsAccounted d i) (sym q)
                (save_body-AllAccounted (called w) v unique h e)
        ]
