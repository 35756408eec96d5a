-- ===== src/Domain/Errors.antt =====
-- Go errors as trees: the package-level sentinels, the ways of wrapping with `%w`, and what
-- errors.Is, errors.As and Error() read from such a tree.
use mentor_ia_worker.Prelude.{
  ℕ, String, ◌≡◌, refl, ◌⊎◌, inl, inr, Bool, true, false, ◌||◌, Option, none, some, ◌++◌, ltb,
  if◌then◌else◌,
}
use mentor_ia_worker.Text.{Bytes, bytes, decimal}

-- service.ErrJobFailed, service.ErrRetryScheduled, domain.ErrProcessingLeaseLost,
-- domain.ErrOutboxDispatchLost, and those of the libraries that the worker tests for.
pub data Sentinel : Type 0 where
  job_failed retry_scheduled lease_lost dispatch_lost no_rows deadline_exceeded canceled : Sentinel

abbrev pub eq_sentinel : Sentinel → Sentinel → Bool
eq_sentinel job_failed job_failed = true
eq_sentinel retry_scheduled retry_scheduled = true
eq_sentinel lease_lost lease_lost = true
eq_sentinel dispatch_lost dispatch_lost = true
eq_sentinel no_rows no_rows = true
eq_sentinel deadline_exceeded deadline_exceeded = true
eq_sentinel canceled canceled = true
eq_sentinel _ _ = false

pub data Error : Type 0 where
  -- a sentinel itself
  sentinel : Sentinel → Error
  -- `fmt.Errorf` without `%w`, and `errors.New`
  plain : String → Error
  -- `fmt.Errorf("…%s", text)`
  about : String → Bytes → Error
  -- any other error: the sentinel that it wraps, whether it is a net.Error, its text
  external : Option Sentinel → Bool → Bytes → Error
  -- `fmt.Errorf("…%w", err)`
  wrap : String → Error → Error
  -- `fmt.Errorf("%w: %v", sentinel, err)`
  caused_by : Sentinel → Error → Error
  -- `fmt.Errorf("%w; falha adicional ao registrar erro: %w", failure, err)`
  and_also : Error → Error → Error
  -- *openrouter.APIError: status, code, retry, err
  api_error : ℕ → String → Bool → Error → Error

pub data Result {ℓ} (A : Type ℓ) : Type ℓ where
  ok : A → Result A
  err : Error → Result A

pub Result-cases {ℓ} :
    {A : Type ℓ} (r : Result A) → ((a : A) × (r ≡ ok a)) ⊎ ((e : Error) × (r ≡ err e))
Result-cases (ok a) = inl (a, refl)
Result-cases (err e) = inr (e, refl)

-- errors.Is
unfoldable pub errors_is : Sentinel → Error → Bool
errors_is t (sentinel s) = eq_sentinel s t
errors_is t (plain _) = false
errors_is t (about _ _) = false
errors_is t (external none _ _) = false
errors_is t (external (some s) _ _) = eq_sentinel s t
errors_is t (wrap _ e) = errors_is t e
errors_is t (caused_by s _) = eq_sentinel s t
errors_is t (and_also a b) = errors_is t a || errors_is t b
errors_is t (api_error _ _ _ e) = errors_is t e

abbrev pub or_else {ℓ} : {A : Type ℓ} → Option A → Option A → Option A
or_else none b = b
or_else (some a) b = some a

-- errors.As for `interface{ Retryable() bool }`: the answer of the first error of the tree that
-- has the method, which only *openrouter.APIError has.
unfoldable pub as_retryable : Error → Option Bool
as_retryable (sentinel _) = none
as_retryable (plain _) = none
as_retryable (about _ _) = none
as_retryable (external _ _ _) = none
as_retryable (wrap _ e) = as_retryable e
as_retryable (caused_by _ _) = none
as_retryable (and_also a b) = or_else (as_retryable a) (as_retryable b)
as_retryable (api_error _ _ retry _) = some retry

-- errors.As for net.Error
unfoldable pub is_network_error : Error → Bool
is_network_error (sentinel _) = false
is_network_error (plain _) = false
is_network_error (about _ _) = false
is_network_error (external _ network _) = network
is_network_error (wrap _ e) = is_network_error e
is_network_error (caused_by _ _) = false
is_network_error (and_also a b) = is_network_error a || is_network_error b
is_network_error (api_error _ _ _ e) = is_network_error e

sentinel_text : Sentinel → String
sentinel_text job_failed = "job de insight falhou definitivamente"
sentinel_text retry_scheduled = "job de insight aguardando retentativa"
sentinel_text lease_lost = "ownership do processamento do job foi perdido"
sentinel_text dispatch_lost = "ownership do dispatch da outbox foi perdido"
sentinel_text no_rows = "no rows in result set"
sentinel_text deadline_exceeded = "context deadline exceeded"
sentinel_text canceled = "context canceled"

-- Error()
unfoldable pub error_text : Error → Bytes
unfolding sentinel_text bytes decimal
error_text (sentinel s) = bytes (sentinel_text s)
error_text (plain m) = bytes m
error_text (about m text) = bytes m ++ text
error_text (external _ _ text) = text
error_text (wrap m e) = bytes m ++ error_text e
error_text (caused_by s e) = bytes (sentinel_text s) ++ (bytes ": " ++ error_text e)
error_text (and_also a b) =
    error_text a ++ (bytes "; falha adicional ao registrar erro: " ++ error_text b)
error_text (api_error status code _ e) =
    bytes "OpenRouter retornou "
    ++ (bytes code
        ++ ((if ltb 0 status
              then bytes " (status " ++ (decimal status ++ bytes "): ")
              else bytes ": ")
            ++ error_text e))
