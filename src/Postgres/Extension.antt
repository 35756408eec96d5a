-- ===== src/Postgres/Extension.antt =====
-- Tables that have grown: events and insights are added and rewritten, and never taken away.
use mentor_ia_worker.Prelude.{
  ℕ, ◌≡◌, refl, ap, ◌∙◌, Bool, true, false, List, [], ◌∷◌, ◌++◌, map, ◌==◌, ◌&&◌, arith,
  if◌then◌else◌, update_where,
}
use mentor_ia_worker.Text.{Bytes}
use mentor_ia_worker.Domain.{OutboxType}
use mentor_ia_worker.Postgres.Counting.{
  failures_of, is_failed_type, is_failure_of, count-appended, count-update_where,
}
use mentor_ia_worker.Postgres.Tables.{OutboxRow, InsightRow, Database}

abbrev pub Extends {ℓ} : {A : Type ℓ} → List A → List A → Type ℓ
Extends {A} before after = (more : List A) × (after ≡ before ++ more)

-- What an event says, and about which job.
abbrev pub event_label : OutboxRow → ℕ × ℕ × OutboxType × Bytes
event_label r = (r.id, r.job_id, r.tipo, r.payload)

-- The job that an insight is about.
abbrev pub insight_label : InsightRow → ℕ × ℕ × ℕ
insight_label r = (r.id, r.aluno_id, r.job_id)

-- The jobs are the same, and what the events say and the insights are about stays, in its order.
pub record IsExtension (before after : Database) : Type 0 where
  pub jobs : after.insight_jobs ≡ before.insight_jobs
  pub events :
      Extends (map event_label before.outbox_eventos) (map event_label after.outbox_eventos)
  pub insights : Extends (map insight_label before.insights) (map insight_label after.insights)

module _ {ℓ} {A : Type ℓ} where
  append-nil : (xs : List A) → xs ≡ xs ++ []
  append-nil [] = refl
  append-nil (x ∷ xs) = ap (◌∷◌ x) (append-nil xs)

  pub Extends-refl : (xs : List A) → Extends xs xs
  Extends-refl xs = ([], append-nil xs)

  append_assoc : (xs ys zs : List A) → (xs ++ ys) ++ zs ≡ xs ++ (ys ++ zs)
  append_assoc [] ys zs = refl
  append_assoc (x ∷ xs) ys zs = ap (◌∷◌ x) (append_assoc xs ys zs)

  pub Extends-trans : (xs ys zs : List A) → Extends xs ys → Extends ys zs → Extends xs zs
  Extends-trans xs ys zs (more, e) (rest, q) =
      (more ++ rest, q ∙ ap (λ l. l ++ rest) e ∙ append_assoc xs more rest)

module _ {ℓ κ} {A : Type ℓ} {B : Type κ} (g : A → B) where
  pub map-appended : (xs ys : List A) → Extends (map g xs) (map g (xs ++ ys))
  map-appended [] ys = (map g ys, refl)
  map-appended (x ∷ xs) ys = let (more, e) = map-appended xs ys in (more, ap (◌∷◌ (g x)) e)

  map-update_where :
      (p : A → Bool) (f : A → A) (xs : List A)
      → ((x : A) → g (f x) ≡ g x)
      → map g (update_where p f xs) ≡ map g xs
  map-update_where p f [] same = refl
  map-update_where p f (x ∷ xs) same = λ i. at_head (p x) i ∷ map-update_where p f xs same i
    where
      at_head : (b : Bool) → g (if b then f x else x) ≡ g x
      at_head true = same x
      at_head false = refl

  pub map-updated :
      (p : A → Bool) (f : A → A) (xs : List A)
      → ((x : A) → g (f x) ≡ g x)
      → Extends (map g xs) (map g (update_where p f xs))
  map-updated p f xs same = ([], map-update_where p f xs same ∙ append-nil (map g xs))

-- New events, rewritten events, new or rewritten insights, and other tables.
pub IsExtension-events :
    (db : Database) (rows : List OutboxRow)
    → Extends (map event_label db.outbox_eventos) (map event_label rows)
    → IsExtension db (record db { outbox_eventos = rows })
IsExtension-events db rows e = record {
  jobs = refl;
  events = e;
  insights = Extends-refl (map insight_label db.insights);
}

pub IsExtension-insights :
    (db : Database) (rows : List InsightRow)
    → Extends (map insight_label db.insights) (map insight_label rows)
    → IsExtension db (record db { insights = rows })
IsExtension-insights db rows e = record {
  jobs = refl;
  events = Extends-refl (map event_label db.outbox_eventos);
  insights = e;
}

pub IsExtension-links :
    (before after : Database)
    → after.insight_jobs ≡ before.insight_jobs
    → after.outbox_eventos ≡ before.outbox_eventos
    → after.insights ≡ before.insights
    → IsExtension before after
IsExtension-links before after jobs events insights = record {
  jobs = jobs;
  events = ([], ap (map event_label) events ∙ append-nil (map event_label before.outbox_eventos));
  insights = ([], ap (map insight_label) insights ∙ append-nil (map insight_label before.insights));
}

-- And no insight is written, and no failure announced.
pub record IsQuiet (before after : Database) : Type 0 where
  pub extension : IsExtension before after
  pub insights : after.insights ≡ before.insights
  pub failures : (i : ℕ) → failures_of i after ≡ failures_of i before

-- Events that change in what they do not say.
pub IsQuiet-updated :
    (db : Database) (p : OutboxRow → Bool) (f : OutboxRow → OutboxRow)
    → ((e : OutboxRow) → event_label (f e) ≡ event_label e)
    → IsQuiet db (record db { outbox_eventos = update_where p f db.outbox_eventos })
IsQuiet-updated db p f same = record {
  extension = IsExtension-events db _ (map-updated event_label p f db.outbox_eventos same);
  insights = refl;
  failures = λ i.
      count-update_where (is_failure_of i) p f db.outbox_eventos
        (λ e. ap (λ l. l.1 == i && is_failed_type l.2) (same e));
}

-- One more event, of another type.
pub IsQuiet-appended :
    (db : Database) (e : OutboxRow)
    → is_failed_type e.tipo ≡ false
    → IsQuiet db (record db { outbox_eventos = db.outbox_eventos ++ e ∷ [] })
IsQuiet-appended db e other = record {
  extension = IsExtension-events db _ (map-appended event_label db.outbox_eventos (e ∷ []));
  insights = refl;
  failures = λ i.
      let missed : is_failure_of i e ≡ false = ground (arith, other) in
      count-appended (is_failure_of i) db.outbox_eventos e ∙ rw missed refl;
}
