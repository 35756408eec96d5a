-- ===== src/Postgres/Schedule/Batch.antt =====
-- ScheduleDueRetryJobs as one UPDATE and one INSERT.
use mentor_ia_worker.Prelude.{
  ℕ, suc, ◌≡◌, ◌⊎◌, inl, inr, refl, sym, ap, subst, ◌∙◌, Bool, true, false, ◌||◌, List, [], ◌∷◌,
  ◌++◌, any, map, length, update_where, if◌then◌else◌,
}
use mentor_ia_worker.Text.{Bytes}
use mentor_ia_worker.Domain.{Message, OutboxType, insight_retry_requested}
use mentor_ia_worker.Domain.Errors.{ok}
use mentor_ia_worker.Postgres.Tables.{InsightJob, OutboxRow, Database}
use mentor_ia_worker.Postgres.Rows.{Repository, has_ids}
use mentor_ia_worker.Postgres.Session.{World, ◌>>=◌, ◌>>◌, called, pure, draw, labelled, statement}
use mentor_ia_worker.Postgres.Session.Laws.{
  step-ok, >>=-ok, pure-ok, transaction_atomic, transaction-ok,
}
use mentor_ia_worker.Postgres.Failure.{insert_event, new_event}
use mentor_ia_worker.Postgres.Failure.Effect.{insert_event-ok}
use mentor_ia_worker.Postgres.Schedule.{
  due_jobs, due_messages, message_of, requeued, requeue_job, schedule_all, read_rows, schedule_body,
  schedule_due_retry_jobs,
}

-- `WHERE (id, aluno_id) IN …`
abbrev pub is_one_of : List InsightJob → InsightJob → Bool
is_one_of js k = any (λ j. has_ids j.id j.aluno_id k) js

-- What an event says about which job.
abbrev pub subject : OutboxRow → ℕ × OutboxType
subject e = (e.job_id, e.tipo)

abbrev pub retry_of : InsightJob → ℕ × OutboxType
retry_of j = (j.id, insight_retry_requested)

-- All the jobs put back by one UPDATE, and one event for each of them by one INSERT.
pub record IsBatch (now : ℕ) (js : List InsightJob) (before after : Database) : Type 0 where
  pub jobs : after.insight_jobs ≡ update_where (is_one_of js) (requeued now) before.insight_jobs
  pub events :
      map subject after.outbox_eventos ≡ map subject before.outbox_eventos ++ map retry_of js
  pub insights : after.insights ≡ before.insights
  pub links : after.insights_disciplinas ≡ before.insights_disciplinas

module _ {A : Type 0} where
  -- Two UPDATEs that set the same are one.
  update_where-twice :
      (p q : A → Bool) (f : A → A) (xs : List A)
      → ((x : A) → q (f x) ≡ q x)
      → ((x : A) → f (f x) ≡ f x)
      → update_where q f (update_where p f xs) ≡ update_where (λ x. p x || q x) f xs
  update_where-twice p q f [] same idle = refl
  update_where-twice p q f (x ∷ xs) same idle =
      λ i. at_head (p x) (q x) (same x) i ∷ update_where-twice p q f xs same idle i
    where
      after_first : (c : Bool) → (if c then f (f x) else f x) ≡ f x
      after_first true = idle x
      after_first false = refl

      at_head :
          (b c : Bool)
          → q (f x) ≡ q x
          → (if q (if b then f x else x) then f (if b then f x else x) else if b then f x else x)
            ≡ (if b || q x then f x else x)
      at_head true c h = after_first (q (f x))
      at_head false c h = refl

  update_where-nothing : (f : A → A) (xs : List A) → xs ≡ update_where (λ x. false) f xs
  update_where-nothing f [] = refl
  update_where-nothing f (x ∷ xs) = ap (◌∷◌ x) (update_where-nothing f xs)

  append-nil : (xs : List A) → xs ≡ xs ++ []
  append-nil [] = refl
  append-nil (x ∷ xs) = ap (◌∷◌ x) (append-nil xs)

  append_assoc : (xs ys zs : List A) → (xs ++ ys) ++ zs ≡ xs ++ (ys ++ zs)
  append_assoc [] ys zs = refl
  append_assoc (x ∷ xs) ys zs = ap (◌∷◌ x) (append_assoc xs ys zs)

map-append : {A B : Type 0} (g : A → B) (xs ys : List A) → map g (xs ++ ys) ≡ map g xs ++ map g ys
map-append g [] ys = refl
map-append g (x ∷ xs) ys = ap (◌∷◌ (g x)) (map-append g xs ys)

length-map : {A B : Type 0} (g : A → B) (xs : List A) → length (map g xs) ≡ length xs
length-map g [] = refl
length-map g (x ∷ xs) = ap suc (length-map g xs)

same_ok : {A : Type 0} {x y : A} → ok x ≡ ok y → x ≡ y
same_ok h = cc

IsBatch-nil : (now : ℕ) (db : Database) → IsBatch now [] db db
IsBatch-nil now db = record {
  jobs = update_where-nothing (requeued now) db.insight_jobs;
  events = append-nil (map subject db.outbox_eventos);
  insights = refl;
  links = refl;
}

-- One job and its event, and then the others.
IsBatch-cons :
    (now id : ℕ) (json : Bytes) (j : InsightJob) (js : List InsightJob)
    (before mid after last : Database)
    → mid ≡ record before {
      insight_jobs = update_where (has_ids j.id j.aluno_id) (requeued now) before.insight_jobs;
    }
    → after ≡ record mid {
      outbox_eventos =
          mid.outbox_eventos ++ new_event now id j.id insight_retry_requested json ∷ [];
    }
    → IsBatch now js after last
    → IsBatch now (j ∷ js) before last
IsBatch-cons now id json j js before mid after last first second rest = record {
  jobs =
      rest.jobs
      ∙ ap (λ d. update_where (is_one_of js) (requeued now) d.insight_jobs) second
      ∙ ap (λ d. update_where (is_one_of js) (requeued now) d.insight_jobs) first
      ∙ update_where-twice (has_ids j.id j.aluno_id) (is_one_of js) (requeued now)
          before.insight_jobs (λ k. same js k) (λ k. refl);
  events =
      rest.events
      ∙ ap (λ d. map subject d.outbox_eventos ++ map retry_of js) second
      ∙ ap
          (λ d.
            map subject
              (d.outbox_eventos ++ new_event now id j.id insight_retry_requested json ∷ [])
            ++ map retry_of js)
          first
      ∙ ap (λ l. l ++ map retry_of js)
          (map-append subject before.outbox_eventos
            (new_event now id j.id insight_retry_requested json ∷ []))
      ∙ append_assoc (map subject before.outbox_eventos) (retry_of j ∷ []) (map retry_of js);
  insights = rest.insights ∙ ap (λ d. d.insights) second ∙ ap (λ d. d.insights) first;
  links =
      rest.links ∙ ap (λ d. d.insights_disciplinas) second ∙ ap (λ d. d.insights_disciplinas) first;
}
  where
    same : (ds : List InsightJob) (k : InsightJob) → is_one_of ds (requeued now k) ≡ is_one_of ds k
    same [] k = refl
    same (d ∷ ds) k = ap (λ b. has_ids d.id d.aluno_id k || b) (same ds k)

module _ (r : Repository) where
  requeue_job-update :
      (j : InsightJob) (w : World)
      → requeue_job r.server (message_of r.server j) w ≡ (
        ok tt,
        record w.db {
          insight_jobs = update_where (has_ids j.id j.aluno_id) (requeued w.now) w.db.insight_jobs;
        },
      )
  unfolding requeue_job message_of
  requeue_job-update j w = rw (r.server.uuid_param-text j.id, r.server.uuid_param-text j.aluno_id)

  schedule_all-IsBatch :
      (js : List InsightJob) (w w' : World)
      → schedule_all r (map (message_of r.server) js) w ≡ (ok tt, w')
      → IsBatch w.now js w.db w'.db
  unfolding schedule_all
  schedule_all-IsBatch [] w w' h =
      subst (IsBatch w.now [] w.db) (ap (λ q. q.1.db) h) (IsBatch-nil w.now w.db)
  schedule_all-IsBatch (j ∷ js) w w' h =
      let m = message_of r.server j in
      let announced = λ (id : ℕ).
        labelled "falha ao criar evento de outbox para retry: " (
          statement
            (insert_event r.server id m.job_id insight_retry_requested (r.codec.marshal_message m)))
        >> schedule_all r (map (message_of r.server) js) in
      let (t, v, e, frame, more) =
        step-ok "falha ao marcar job para retry: " (requeue_job r.server m)
          (λ _. draw r.server >>= announced) w w' tt h in
      let drew = record v { drawn = suc v.drawn } in
      let id = r.server.new_uuid v.drawn in
      let (s, u, f, frame', rest) =
        step-ok "falha ao criar evento de outbox para retry: "
          (insert_event r.server id m.job_id insight_retry_requested (r.codec.marshal_message m))
          (λ _. schedule_all r (map (message_of r.server) js)) drew w' tt more in
      let (json, _, written) =
        insert_event-ok r.server id j.id m.job_id insight_retry_requested
          (r.codec.marshal_message m) drew s u.db
          (unfold message_of in r.server.uuid_param-text j.id) f in
      let time : u.now ≡ w.now = sym (frame.now ∙ frame'.now) in
      IsBatch-cons w.now id json j js w.db v.db u.db w'.db
        (sym (ap (λ q. q.1) (sym (requeue_job-update j w) ∙ e)))
        (subst
          (λ n. u.db ≡ record v.db {
            outbox_eventos =
                v.db.outbox_eventos ++ new_event n id j.id insight_retry_requested json ∷ [];
          })
          (sym frame.now) written)
        (subst (λ n. IsBatch n js u.db w'.db) time (schedule_all-IsBatch js u w' rest))

  schedule_body-IsBatch :
      (limit n : ℕ) (w w' : World)
      → schedule_body r limit w ≡ (ok n, w')
      → (n ≡ length (due_jobs limit w)) × IsBatch w.now (due_jobs limit w) w.db w'.db
  unfolding schedule_body due_messages read_rows
  schedule_body-IsBatch limit n w w' h =
      let due = due_jobs limit w in
      let after_read = λ (ms : List Message). schedule_all r ms >> pure (length ms) in
      let (ms, v, e, frame, more) =
        step-ok "falha ao buscar jobs para retry: " (due_messages r.server limit)
          (λ ms.
            labelled "falha ao iterar jobs para retry: " (statement read_rows) >> after_read ms)
          w w' n h in
      let (t, u, f, frame', rest) =
        step-ok "falha ao iterar jobs para retry: " read_rows (λ _. after_read ms) v w' n more in
      let (s, x, g, last) = >>=-ok (schedule_all r ms) (λ _. pure (length ms)) u w' n rest in
      let (count, final) = pure-ok (length ms) n x w' last in
      let read : map (message_of r.server) due ≡ ms = same_ok (ap (λ q. q.0) e) in
      let done : schedule_all r (map (message_of r.server) due) u ≡ (ok tt, w') =
        subst (λ l. schedule_all r l u ≡ (ok tt, w')) (sym read) (g ∙ ap (λ y. (ok tt, y)) final) in
      let tables : u.db ≡ w.db = sym (ap (λ q. q.1) e ∙ ap (λ q. q.1) f) in
      (
        sym count ∙ ap length (sym read) ∙ length-map (message_of r.server) due,
        subst (λ d. IsBatch w.now due d w'.db) tables
            (subst (λ k. IsBatch k due u.db w'.db) (sym (frame.now ∙ frame'.now))
              (schedule_all-IsBatch due u w' done)),
      )

-- ScheduleDueRetryJobs is all or nothing, and what it does job by job is one UPDATE of the due jobs
-- that it has selected, which puts them back to 'pendente', and one INSERT of an event
-- insight_retry_requested for each of them, in their order; other tables stay. Whatever calls of
-- the database fail, the tables are those of this batch or as they were, and a number that is
-- returned counts the jobs of a batch that took place.
pub schedule_due_retry_jobs-IsBatch :
    (r : Repository) (limit : ℕ) (w : World)
    → let (result, w') = schedule_due_retry_jobs r limit w in
      ((w'.db ≡ w.db) ⊎ IsBatch w.now (due_jobs limit w) w.db w'.db)
      × ((n : ℕ)
          → result ≡ ok n
          → (n ≡ length (due_jobs limit w)) × IsBatch w.now (due_jobs limit w) w.db w'.db)
unfolding schedule_due_retry_jobs due_jobs
schedule_due_retry_jobs-IsBatch r limit w = (either, on_success)
  where
    either :
        ((schedule_due_retry_jobs r limit w).1.db ≡ w.db)
        ⊎ IsBatch w.now (due_jobs limit w) w.db (schedule_due_retry_jobs r limit w).1.db
    either =
        elim (transaction_atomic "falha ao iniciar transacao de retry: "
          "falha ao confirmar jobs de retry: " (schedule_body r limit) w) [
            | inl e ↦ inl e
            | inr (n, v, e, q) ↦ inr (
                subst (IsBatch w.now (due_jobs limit w) w.db) (sym q)
                  (schedule_body-IsBatch r limit n (called w) v e).1)
          ]

    on_success :
        (n : ℕ)
        → (schedule_due_retry_jobs r limit w).0 ≡ ok n
        → (n ≡ length (due_jobs limit w))
          × IsBatch w.now (due_jobs limit w) w.db (schedule_due_retry_jobs r limit w).1.db
    on_success n h =
        let w' = (schedule_due_retry_jobs r limit w).1 in
        let (v, e, q, _) =
          transaction-ok "falha ao iniciar transacao de retry: "
            "falha ao confirmar jobs de retry: " (schedule_body r limit) w w' n (λ k. (h k, w')) in
        let (count, batch) = schedule_body-IsBatch r limit n (called w) v e in
        (count, subst (IsBatch w.now (due_jobs limit w) w.db) q batch)
