-- ===== src/Job.antt =====
-- routemq/job.py: the delay before a job is tried again. As in Retry, numbers are exact, a jitter and
-- a random number count millionths, and a delay that is returned is multiplied by a million twice.
pub mod Delay
pub mod Payload
pub mod Restored
pub mod Json
pub mod Loading
use mathlib.Core.Option
use route_mq.Prelude.{
  ℕ, ◌+◌, ◌-◌, ◌*◌, max, Bool, not, ◌||◌, Option, none, some, ltb, if◌then◌else◌,
}
use route_mq.Prelude.Int.{ℤ, pos, negsuc}
use route_mq.Retry.{
  one, Config, valid, invalid, BackoffConfig, backoff_config, BackoffError, BackoffDelay, delayed,
  refused, bounded_exponential_backoff,
}

-- What the delay depends on.
pub record Job : Type 0 where
  pub retry_after : ℤ
  pub retry_backoff_enabled : Bool
  pub retry_backoff_max_delay : Option ℤ
  pub retry_backoff_jitter : Option ℤ

-- A fixed delay; `n` is a million times a million.
abbrev pub scaled : ℤ → ℤ
scaled (pos n) = pos (n * one * one)
scaled (negsuc n) = negsuc ((n + 1) * one * one - 1)

abbrev pub max_int : ℤ → ℤ → ℤ
max_int (pos a) (pos b) = pos (max a b)
max_int (pos a) (negsuc b) = pos a
max_int (negsuc a) (pos b) = pos b
max_int (negsuc a) (negsuc b) = if ltb a b then negsuc a else negsuc b

-- The job's own cap, or the worker's, or the fixed delay.
abbrev pub configured_max_delay : Job → Option ℤ → ℤ
configured_max_delay job max_delay = first_set job.retry_backoff_max_delay max_delay
  where
    first_set : Option ℤ → Option ℤ → ℤ
    first_set (some cap) o = cap
    first_set none (some cap) = cap
    first_set none none = job.retry_after

abbrev pub configured_jitter : Job → ℤ → ℤ
configured_jitter job jitter = Option.get_or job.retry_backoff_jitter jitter

-- What is returned, or the exception; a fixed delay may be negative.
pub data RetryDelay : Type 0 where
  delay : ℤ → RetryDelay
  config_error : RetryDelay
  backoff_error : BackoffError → RetryDelay

abbrev pub from_backoff : BackoffDelay → RetryDelay
from_backoff (delayed d) = delay (pos d)
from_backoff (refused x) = backoff_error x

abbrev pub delay_from : ℕ → ℕ → Config BackoffConfig → RetryDelay
delay_from attempts rng (invalid e) = config_error
delay_from attempts rng (valid c) =
    from_backoff (bounded_exponential_backoff (max 1 attempts) c rng)

-- `Job.get_retry_delay`; `config_error` is the `ValueError` of a configuration. `rng` is the next
-- random number.
unfoldable pub get_retry_delay :
    Job → ℕ → (backoff_enabled : Bool) → Option ℤ → (jitter : ℤ) → (rng : ℕ) → RetryDelay
get_retry_delay job attempts backoff_enabled max_delay jitter rng =
    if not (job.retry_backoff_enabled || backoff_enabled)
    then delay (scaled job.retry_after)
    else delay_from attempts rng (
        backoff_config job.retry_after
          (max_int (configured_max_delay job max_delay) job.retry_after)
          (configured_jitter job jitter))
