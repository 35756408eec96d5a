-- ===== src/Rabbitmq/Connection/Usable.antt =====
-- What the conditions at the beginning of Connect let through.
use mentor_ia_worker.Prelude.{
  ℕ, suc, Bool, true, false, ◌≡◌, refl, subst, arith, ℤ, pos, negsuc, leb_ℤ, if◌then◌else◌,
}
use mentor_ia_worker.Text.{is_empty}
use mentor_ia_worker.Domain.Errors.{Error, Result, ok, err, plain}
use mentor_ia_worker.Rabbitmq.Connection.{
  Config, is_zero, is_negative, with_defaults, usable, checked,
}

pub record IsUsable (config : Config) : Type 0 where
  pub url : is_empty config.url ≡ false
  pub queue : is_empty config.queue ≡ false
  pub dlq : is_empty config.dlq ≡ false
  pub prefetch : leb_ℤ config.prefetch (pos 0) ≡ false
  pub publish_timeout : leb_ℤ config.publish_timeout (pos 0) ≡ false

with_default-positive :
    (n : ℤ) (k : ℕ)
    → is_negative (if is_zero n then pos (suc k) else n) ≡ false
    → leb_ℤ (if is_zero n then pos (suc k) else n) (pos 0) ≡ false
with_default-positive (pos ℕ.zero) k h = ground arith
with_default-positive (pos (suc n)) k h = ground arith
with_default-positive (negsuc n) k h = cc

passed :
    (b : Bool) (e : Error) (r : Result Config) (config : Config)
    → (if b then err e else r) ≡ ok config
    → (b ≡ false) × (r ≡ ok config)
passed true e r config h = cc
passed false e r config h = (refl, h)

pub checked-IsUsable : (given used : Config) → checked given ≡ ok used → IsUsable used
unfolding checked usable
checked-IsUsable given used h =
    let config = with_defaults given in
    let (url, h₁) =
      passed (is_empty config.url) (plain "RABBITMQ_URL nao pode estar vazio") _ used h in
    let (queue, h₂) =
      passed (is_empty config.queue) (plain "RABBITMQ_INSIGHTS_QUEUE nao pode estar vazio") _ used
        h₁ in
    let (dlq, h₃) =
      passed (is_empty config.dlq) (plain "RABBITMQ_INSIGHTS_DLQ nao pode estar vazio") _ used h₂ in
    let (prefetch, h₄) =
      passed (is_negative config.prefetch) (plain "RABBITMQ_PREFETCH deve ser maior que zero") _
        used h₃ in
    let (timeout, h₅) =
      passed (is_negative config.publish_timeout)
        (plain "RABBITMQ_PUBLISH_TIMEOUT_MS deve ser maior que zero") (ok config) used h₄ in
    subst IsUsable (same {x = config} h₅) (record {
      url = url;
      queue = queue;
      dlq = dlq;
      prefetch = with_default-positive given.prefetch 0 prefetch;
      publish_timeout = with_default-positive given.publish_timeout 4999999999 timeout;
    })
  where
    same : {x : Config} {y : Config} → ok x ≡ ok y → x ≡ y
    same q = cc
