-- ===== src/Tests/Providers.antt =====
-- An answer of the model, and the default configuration.
use mentor_ia_worker.Prelude.{◌≡◌, refl, [], ◌∷◌, pos, arith, ◌+ℤ◌, ◌*ℤ◌, wrap64}
use mentor_ia_worker.Text.{
  Bytes, bytes, trim_space, trim_left, trim_right, strip, leading_space, trailing_space, to_lower,
}
use mentor_ia_worker.Domain.Errors.{ok}
use mentor_ia_worker.OpenRouter.{
  Client, Transport, complete, after_send, read_reply, read_content, is_safety_classification,
}
use mentor_ia_worker.OpenRouter.Classification.{IsFit, complete-IsFit}
use mentor_ia_worker.Config.{Numbers, check_numbers, seconds, milliseconds, batch_duration}
use mentor_ia_worker.Config.Validity.{Fits, IsValid, check_numbers-IsValid}
use mentor_ia_worker.Tests.Fixtures.{running_job, world_with}

abbrev pub client : Client
client = record {
  api_key = b'k' ∷ [];
  base_url = b'u' ∷ [];
  model = b'm' ∷ [];
  timeout = pos 20000000000;
}

-- A model that answers every request with one choice.
abbrev pub transport : Transport
transport = record {
  marshal_request = λ r. r.model;
  check_url = λ u. ok tt;
  send = λ r w. (ok (record { status = 200; body = λ v. (ok (b'o' ∷ b'k' ∷ b' ' ∷ []), v) }), w);
  unmarshal_choices = λ b. ok (record { role = []; content = b } ∷ []);
}

abbrev insight : Bytes
insight = b'o' ∷ b'k' ∷ []

completed : (complete client transport (b'p' ∷ []) (world_with running_job)).0 ≡ ok insight
unfolding complete after_send read_reply read_content is_safety_classification trim_space trim_left
    trim_right strip leading_space trailing_space to_lower bytes
completed = refl

complete-IsFit_example : IsFit insight
complete-IsFit_example =
    complete-IsFit client transport (b'p' ∷ []) (world_with running_job) insight completed

abbrev defaults : Numbers
defaults = record {
  request_timeout_ms = pos 20000;
  max_attempts = pos 3;
  lease_seconds = pos 120;
  worker_concurrency = pos 1;
  rabbitmq_prefetch = pos 1;
  rabbitmq_publish_timeout_ms = pos 5000;
  retry_poll_ms = pos 5000;
  retry_batch_size = pos 10;
  outbox_poll_ms = pos 5000;
  outbox_batch_size = pos 4;
  outbox_lock_seconds = pos 30;
  outbox_max_attempts = pos 5;
}

accepted : check_numbers defaults ≡ ok tt
unfolding check_numbers seconds milliseconds batch_duration ◌+ℤ◌ ◌*ℤ◌ wrap64
accepted = refl

defaults-Fits : Fits defaults
defaults-Fits = record {
  request = omega arith;
  lease = omega arith;
  lock = omega arith;
  batch = omega arith;
}

check_numbers-IsValid_example : IsValid defaults
check_numbers-IsValid_example = check_numbers-IsValid defaults accepted defaults-Fits
