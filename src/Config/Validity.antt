-- ===== src/Config/Validity.antt =====
-- What Load guarantees of the integers that it accepts.
use mentor_ia_worker.Prelude.{
  ℕ, suc, ◌+◌, ◌*◌, ◌≤◌, ◌<◌, ◌≡◌, ◌≢◌, ap, subst, ◌∙◌, false, arith, ℤ, pos, negsuc, pos_part,
  ◌≤ℤ◌, leb_ℤ, ltb_ℤ, ◌+ℤ◌, ◌*ℤ◌, two_63, +ℤ_fits, *ℤ_fits,
}
use mentor_ia_worker.Domain.Errors.{ok}
use mentor_ia_worker.Config.{Numbers, seconds, milliseconds, batch_duration, check_numbers}

-- The conditions, as they are computed.
pub record Passed (n : Numbers) : Type 0 where
  pub request_timeout : leb_ℤ n.request_timeout_ms (pos 0) ≡ false
  pub max_attempts : leb_ℤ n.max_attempts (pos 0) ≡ false
  pub lease : leb_ℤ n.lease_seconds (pos 0) ≡ false
  pub concurrency : leb_ℤ n.worker_concurrency (pos 0) ≡ false
  pub prefetch : ltb_ℤ n.rabbitmq_prefetch n.worker_concurrency ≡ false
  pub publish_timeout : leb_ℤ n.rabbitmq_publish_timeout_ms (pos 0) ≡ false
  pub margin :
      ltb_ℤ (seconds n.lease_seconds) (milliseconds n.request_timeout_ms +ℤ pos 30000000000) ≡ false
  pub retry_poll : leb_ℤ n.retry_poll_ms (pos 0) ≡ false
  pub retry_batch : leb_ℤ n.retry_batch_size (pos 0) ≡ false
  pub outbox_poll : leb_ℤ n.outbox_poll_ms (pos 0) ≡ false
  pub outbox_batch : leb_ℤ n.outbox_batch_size (pos 0) ≡ false
  pub outbox_lock : leb_ℤ n.outbox_lock_seconds (pos 0) ≡ false
  pub publish_in_lock :
      leb_ℤ (seconds n.outbox_lock_seconds) (milliseconds n.rabbitmq_publish_timeout_ms) ≡ false
  pub batch_in_lock :
      leb_ℤ
        (seconds n.outbox_lock_seconds)
        (batch_duration n.outbox_batch_size (milliseconds n.rabbitmq_publish_timeout_ms))
      ≡ false
  pub outbox_attempts : leb_ℤ n.outbox_max_attempts (pos 0) ≡ false

pub check_numbers-Passed : (n : Numbers) → check_numbers n ≡ ok tt → Passed n
unfolding check_numbers
check_numbers-Passed n h = ground arith

at_least_one : (n : ℤ) → leb_ℤ n (pos 0) ≡ false → pos 1 ≤ℤ n
at_least_one n h = ground arith

at_least : (m n : ℤ) → ltb_ℤ m n ≡ false → n ≤ℤ m
at_least m n h = ground arith

not_negative : (k : ℕ) → leb_ℤ (negsuc k) (pos 0) ≢ false
not_negative k h = ground arith

-- The products and the sum stay below 2 ^ 63 nanoseconds, which is 292 years.
pub record Fits (n : Numbers) : Type 0 where
  pub request : pos_part n.request_timeout_ms * 1000000 + 30000000000 < two_63
  pub lease : pos_part n.lease_seconds * 1000000000 < two_63
  pub lock : pos_part n.outbox_lock_seconds * 1000000000 < two_63
  pub batch :
      (pos_part n.outbox_batch_size + 1) * (pos_part n.rabbitmq_publish_timeout_ms * 1000000)
      < two_63

-- The conditions as the messages of Load state them, over whole numbers.
pub record IsValid (n : Numbers) : Type 0 where
  pub request_timeout : pos 1 ≤ℤ n.request_timeout_ms
  pub lease : pos 1 ≤ℤ n.lease_seconds
  pub publish_timeout : pos 1 ≤ℤ n.rabbitmq_publish_timeout_ms
  pub outbox_batch : pos 1 ≤ℤ n.outbox_batch_size
  pub outbox_lock : pos 1 ≤ℤ n.outbox_lock_seconds
  pub max_attempts : pos 1 ≤ℤ n.max_attempts
  pub concurrency : pos 1 ≤ℤ n.worker_concurrency
  pub prefetch : n.worker_concurrency ≤ℤ n.rabbitmq_prefetch
  pub retry_batch : pos 1 ≤ℤ n.retry_batch_size
  pub retry_poll : pos 1 ≤ℤ n.retry_poll_ms
  pub outbox_poll : pos 1 ≤ℤ n.outbox_poll_ms
  pub outbox_attempts : pos 1 ≤ℤ n.outbox_max_attempts
  pub lease_outlives_request :
      pos_part n.request_timeout_ms + 30000 ≤ pos_part n.lease_seconds * 1000
  pub batch_within_lock :
      (pos_part n.outbox_batch_size + 1) * pos_part n.rabbitmq_publish_timeout_ms
      < pos_part n.outbox_lock_seconds * 1000

lease_margin :
    (t s : ℤ)
    → leb_ℤ t (pos 0) ≡ false
    → leb_ℤ s (pos 0) ≡ false
    → pos_part t * 1000000 + 30000000000 < two_63
    → pos_part s * 1000000000 < two_63
    → ltb_ℤ (seconds s) (milliseconds t +ℤ pos 30000000000) ≡ false
    → pos_part t + 30000 ≤ pos_part s * 1000
unfolding seconds milliseconds
lease_margin (negsuc k) s pt ps ht hs h = absurd (not_negative k pt)
lease_margin (pos t) (negsuc k) pt ps ht hs h = absurd (not_negative k ps)
lease_margin (pos t) (pos s) pt ps ht hs h =
    ground (arith, *ℤ_fits s 1000000000, *ℤ_fits t 1000000, +ℤ_fits (t * 1000000) 30000000000)

exact_batch :
    (b k l : ℕ)
    → l * 1000000000 < two_63
    → (b + 1) * (suc k * 1000000) < two_63
    → (seconds (pos l) ≡ pos (l * 1000000000))
      × (batch_duration (pos b) (milliseconds (pos (suc k))) ≡ pos ((b + 1) * (suc k * 1000000)))
unfolding seconds milliseconds batch_duration
exact_batch b k l hl hb = (
  *ℤ_fits l 1000000000 hl,
  ap (λ x. x *ℤ milliseconds (pos (suc k))) (+ℤ_fits b 1 (omega (arith, hb)))
      ∙ ap (λ x. pos (b + 1) *ℤ x) (*ℤ_fits (suc k) 1000000 (omega (arith, hb)))
      ∙ *ℤ_fits (b + 1) (suc k * 1000000) hb,
)

batch_margin :
    (b p l : ℤ)
    → leb_ℤ b (pos 0) ≡ false
    → leb_ℤ p (pos 0) ≡ false
    → leb_ℤ l (pos 0) ≡ false
    → pos_part l * 1000000000 < two_63
    → (pos_part b + 1) * (pos_part p * 1000000) < two_63
    → leb_ℤ (seconds l) (batch_duration b (milliseconds p)) ≡ false
    → (pos_part b + 1) * pos_part p < pos_part l * 1000
batch_margin (negsuc k) p l pb pp pl hl hb h = absurd (not_negative k pb)
batch_margin (pos b) (negsuc k) l pb pp pl hl hb h = absurd (not_negative k pp)
batch_margin (pos b) (pos p) (negsuc k) pb pp pl hl hb h = absurd (not_negative k pl)
batch_margin (pos b) (pos ℕ.zero) (pos l) pb pp pl hl hb h = cc
batch_margin (pos b) (pos (suc k)) (pos l) pb pp pl hl hb h =
    let (el, eb) = exact_batch b k l hl hb in
    below (
      subst (λ x. leb_ℤ x (pos ((b + 1) * (suc k * 1000000))) ≡ false) el
        (subst (λ x. leb_ℤ (seconds (pos l)) x ≡ false) eb h))
  where
    below :
        leb_ℤ (pos (l * 1000000000)) (pos ((b + 1) * (suc k * 1000000))) ≡ false
        → (b + 1) * suc k < l * 1000
    below q = ground arith

-- A configuration that Load accepts, and whose durations fit Go's int64, keeps what its messages
-- say: every count, interval, timeout, lease and lock is positive, the prefetch covers the
-- concurrency, a lease outlives the request to the model by 30 seconds, and a lock outlives a whole
-- batch of publications.
pub check_numbers-IsValid : (n : Numbers) → check_numbers n ≡ ok tt → Fits n → IsValid n
check_numbers-IsValid n h f =
    let p = check_numbers-Passed n h in
    record {
      request_timeout = at_least_one n.request_timeout_ms p.request_timeout;
      lease = at_least_one n.lease_seconds p.lease;
      publish_timeout = at_least_one n.rabbitmq_publish_timeout_ms p.publish_timeout;
      outbox_batch = at_least_one n.outbox_batch_size p.outbox_batch;
      outbox_lock = at_least_one n.outbox_lock_seconds p.outbox_lock;
      max_attempts = at_least_one n.max_attempts p.max_attempts;
      concurrency = at_least_one n.worker_concurrency p.concurrency;
      prefetch = at_least n.rabbitmq_prefetch n.worker_concurrency p.prefetch;
      retry_batch = at_least_one n.retry_batch_size p.retry_batch;
      retry_poll = at_least_one n.retry_poll_ms p.retry_poll;
      outbox_poll = at_least_one n.outbox_poll_ms p.outbox_poll;
      outbox_attempts = at_least_one n.outbox_max_attempts p.outbox_attempts;
      lease_outlives_request =
          lease_margin n.request_timeout_ms n.lease_seconds p.request_timeout p.lease f.request
            f.lease p.margin;
      batch_within_lock =
          batch_margin n.outbox_batch_size n.rabbitmq_publish_timeout_ms n.outbox_lock_seconds
            p.outbox_batch p.publish_timeout p.outbox_lock f.lock f.batch p.batch_in_lock;
    }
