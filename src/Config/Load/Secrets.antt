-- ===== src/Config/Load/Secrets.antt =====
-- What Load guarantees of the credentials, and what LogAttrs shows of them.
use mentor_ia_worker.Prelude.{
  String, ◌≡◌, refl, sym, ap, subst, ◌∙◌, All, ==_refl, Bool, true, false, List, [], ◌∷◌, ◌++◌,
  arith, if◌then◌else◌, eq_bytes, ltb_ℤ, leb_ℤ, pos, ◌+ℤ◌,
}
use mentor_ia_worker.Text.{Bytes, bytes, is_empty, trim_space}
use mentor_ia_worker.Domain.Errors.{Result, ok, err}
use mentor_ia_worker.Config.{
  Environment, Numbers, get_env_string, read_numbers, check_numbers, check_present,
  check_production, required_in_production, validated, ◌>>=◌,
}
use mentor_ia_worker.Config.Validity.{check_numbers-Passed}
use mentor_ia_worker.Config.Url.{UrlLibrary, separator}
use mentor_ia_worker.Config.Url.Masking.{IsFreeOf, mask_url_hides}
use mentor_ia_worker.Config.Load.{Config, assembled, load, log_attrs}

-- A URL with credentials.
abbrev pub url_with : Bytes → Bytes → Bytes → Bytes
url_with scheme credentials host = scheme ++ (separator ++ (credentials ++ (b'@' ∷ host)))

-- The attributes for the log are the same whatever the API key is, as long as there is one, and
-- whatever the credentials in the URLs of the database and of RabbitMQ are.
pub log_attrs_secret :
    (c : Config) (key key' scheme database database' host amqp broker broker' node : Bytes)
    → is_empty key ≡ is_empty key'
    → IsFreeOf b':' scheme
    → IsFreeOf b'@' host
    → IsFreeOf b':' amqp
    → IsFreeOf b'@' node
    → log_attrs (record c {
      ai_provider_api_key = key;
      database_url = url_with scheme database host;
      rabbitmq_url = url_with amqp broker node;
    })
      ≡ log_attrs (record c {
        ai_provider_api_key = key';
        database_url = url_with scheme database' host;
        rabbitmq_url = url_with amqp broker' node;
      })
unfolding log_attrs
log_attrs_secret c key key' scheme database database' host amqp broker broker' node e hs hh ha hn =
    rw
      (
        mask_url_hides scheme database host hs hh,
        mask_url_hides scheme database' host hs hh,
        mask_url_hides amqp broker node ha hn,
        mask_url_hides amqp broker' node ha hn,
        e,
      )
      refl

-- What the acceptance of an environment says.
record Accepted (env : Environment) (n : Numbers) : Type 0 where
  read : read_numbers env ≡ ok n
  checked : check_numbers n ≡ ok tt
  produced : check_production env ≡ ok tt

validated-Accepted : (env : Environment) (n : Numbers) → validated env ≡ ok n → Accepted env n
unfolding validated
validated-Accepted env n h = record {
  read = ground arith;
  checked = ground arith;
  produced = ground arith;
}

pub validated-checked :
    (env : Environment) (n : Numbers) → validated env ≡ ok n → check_numbers n ≡ ok tt
validated-checked env n h = (validated-Accepted env n h).checked

ok_injective : {x y : Config} → ok x ≡ ok y → x ≡ y
ok_injective q = cc

load-Accepted :
    {Url : Type 0} (library : UrlLibrary Url) (env : Environment) (c : Config)
    → load library env ≡ ok c
    → (n : Numbers) × Accepted env n × (c ≡ assembled library env n)
unfolding load
load-Accepted library env c h = at_numbers (validated env) refl h
  where
    at_numbers :
        (x : Result Numbers)
        → validated env ≡ x
        → (x >>= λ n. ok (assembled library env n)) ≡ ok c
        → (n : Numbers) × Accepted env n × (c ≡ assembled library env n)
    at_numbers (ok n) q h = (n, validated-Accepted env n q, ok_injective (sym h))
    at_numbers (err e) q h = cc

eq_bytes_refl : (s : Bytes) → eq_bytes s s ≡ true
eq_bytes_refl [] = refl
eq_bytes_refl (x ∷ s) = rw (==_refl x) (eq_bytes_refl s)

check_present-ok :
    (env : Environment) (keys : List String)
    → check_present env keys ≡ ok tt
    → All (λ key. is_empty (trim_space (env key)) ≡ false) keys
unfolding check_present
check_present-ok env [] h = tt
check_present-ok env (key ∷ keys) h = ground (arith, check_present-ok env keys)

check_production-ok :
    (env : Environment)
    → get_env_string env "APP_ENV" "development" ≡ bytes "production"
    → check_production env ≡ ok tt
    → check_present env required_in_production ≡ ok tt
unfolding check_production
check_production-ok env e h =
    pick (eq_bytes (get_env_string env "APP_ENV" "development") (bytes "production"))
      (ap (λ s. eq_bytes s (bytes "production")) e ∙ eq_bytes_refl (bytes "production")) h
  where
    pick :
        (b : Bool)
        → b ≡ true
        → (if b then check_present env required_in_production else ok tt) ≡ ok tt
        → check_present env required_in_production ≡ ok tt
    pick true q k = k
    pick false q k = cc

-- In production a configuration that Load accepts has an API key and a base URL of the provider,
-- and the variables with the URLs of the database and of RabbitMQ are set.
pub load_production :
    {Url : Type 0} (library : UrlLibrary Url) (env : Environment) (c : Config)
    → load library env ≡ ok c
    → c.app_env ≡ bytes "production"
    → (is_empty c.ai_provider_api_key ≡ false)
      × (is_empty c.ai_provider_base_url ≡ false)
      × (is_empty (trim_space (env "DATABASE_URL")) ≡ false)
      × (is_empty (trim_space (env "RABBITMQ_URL")) ≡ false)
load_production library env c h e =
    let (n, accepted, same) = load-Accepted library env c h in
    let all : All (λ key. is_empty (trim_space (env key)) ≡ false) required_in_production =
      check_present-ok env required_in_production (
        check_production-ok env (unfold assembled in ap (λ x. x.app_env) (sym same) ∙ e)
          accepted.produced) in
    (
      ap (λ x. is_empty x.ai_provider_api_key) same ∙ unfold assembled in all.1.1.0,
      ap (λ x. is_empty x.ai_provider_base_url) same ∙ unfold assembled in all.1.1.1.0,
      all.0,
      all.1.0,
    )

-- Every configuration that Load accepts has, as the parts of the worker compute them, a lease that
-- is at least 30 seconds longer than the request to the model, a lock that is longer than one
-- publication, and positive counts.
pub load-durations :
    {Url : Type 0} (library : UrlLibrary Url) (env : Environment) (c : Config)
    → load library env ≡ ok c
    → (ltb_ℤ c.insight_lease (c.ai_request_timeout +ℤ pos 30000000000) ≡ false)
      × (leb_ℤ c.outbox_lock c.rabbitmq_publish_timeout ≡ false)
      × (leb_ℤ c.worker_concurrency (pos 0) ≡ false)
      × (leb_ℤ c.insight_max_attempts (pos 0) ≡ false)
      × (leb_ℤ c.outbox_max_attempts (pos 0) ≡ false)
      × (ltb_ℤ c.rabbitmq_prefetch c.worker_concurrency ≡ false)
load-durations library env c h =
    let (n, accepted, same) = load-Accepted library env c h in
    let p = check_numbers-Passed n accepted.checked in
    subst
      (λ x.
        (ltb_ℤ x.insight_lease (x.ai_request_timeout +ℤ pos 30000000000) ≡ false)
        × (leb_ℤ x.outbox_lock x.rabbitmq_publish_timeout ≡ false)
        × (leb_ℤ x.worker_concurrency (pos 0) ≡ false)
        × (leb_ℤ x.insight_max_attempts (pos 0) ≡ false)
        × (leb_ℤ x.outbox_max_attempts (pos 0) ≡ false)
        × (ltb_ℤ x.rabbitmq_prefetch x.worker_concurrency ≡ false))
      (sym same)
      (unfold assembled in
        (p.margin, p.publish_in_lock, p.concurrency, p.max_attempts, p.outbox_attempts, p.prefetch))
