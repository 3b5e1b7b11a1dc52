-- ===== src/Retry.antt =====
-- routemq/retry.py: bounded exponential backoff and the retry loop.
pub mod Backoff
pub mod Loop
pub mod Overflow
use route_mq.Prelude.{
  ℕ, zero, suc, ◌+◌, ◌-◌, ◌*◌, ◌^◌, min, Bool, true, false, not, ◌||◌, Option, none, some, List, [],
  ◌∷◌, ltb, leb, if◌then◌else◌,
}
use route_mq.Prelude.Int.{ℤ, pos, negsuc}

-- A jitter or a random number, and 1.0, in millionths.
abbrev pub one : ℕ
one = 1000000

pub data ConfigError : Type 0 where
  min_delay_negative max_delay_small jitter_negative max_attempts_small : ConfigError

pub data Config {ℓ} (A : Type ℓ) : Type ℓ where
  valid : A → Config A
  invalid : ConfigError → Config A

pub record BackoffConfig : Type 0 where
  pub min_delay : ℕ
  pub max_delay : ℕ
  pub jitter : ℕ

check_jitter : ℕ → ℕ → ℤ → Config BackoffConfig
check_jitter lo hi (pos j) = valid (record { min_delay = lo; max_delay = hi; jitter = j })
check_jitter lo hi (negsuc j) = invalid jitter_negative

-- `BackoffConfig.__post_init__`
unfoldable pub backoff_config : ℤ → ℤ → ℤ → Config BackoffConfig
unfolding check_jitter
backoff_config (negsuc lo) hi j = invalid min_delay_negative
backoff_config (pos lo) (negsuc hi) j = invalid max_delay_small
backoff_config (pos lo) (pos hi) j =
    if ltb hi lo then invalid max_delay_small else check_jitter lo hi j

pub record RetryConfig : Type 0 where
  pub backoff : BackoffConfig
  pub open backoff use *
  pub max_attempts : ℕ

check_attempts : BackoffConfig → ℤ → Config RetryConfig
check_attempts c (negsuc n) = invalid max_attempts_small
check_attempts c (pos n) =
    if ltb n 1 then invalid max_attempts_small else valid (record { backoff = c; max_attempts = n })

-- `RetryConfig.__post_init__`
unfoldable pub retry_config : ℤ → ℤ → ℤ → ℤ → Config RetryConfig
unfolding backoff_config check_attempts
retry_config lo hi j n = elim (backoff_config lo hi j) [
  | valid c ↦ check_attempts c n
  | invalid e ↦ invalid e
]

-- `lower_bound + (delay - lower_bound) * random_value`, a delay times `one * one`.
unfoldable pub jittered : ℕ → ℕ → ℕ → ℕ
jittered delay j r = let lower = delay * (one - j) in lower * one + (delay * one - lower) * r

-- `2 ** 1024` and greater powers are no floats.
abbrev pub max_exponent : ℕ
max_exponent = 1023

-- `min(config.max_delay, config.min_delay * (2 ** (attempt - 1)))`; `none` is the OverflowError of a
-- float times an integer that is no float.
unfoldable pub capped_delay : ℕ → BackoffConfig → Option ℕ
capped_delay attempt c =
    if ltb max_exponent (attempt - 1)
    then none
    else some (min c.max_delay (c.min_delay * 2 ^ (attempt - 1)))

pub data BackoffError : Type 0 where
  value_error overflow_error : BackoffError

-- A delay, times `one * one`, or an exception.
pub data BackoffDelay : Type 0 where
  delayed : ℕ → BackoffDelay
  refused : BackoffError → BackoffDelay

-- From `if delay <= 0` on.
unfoldable pub with_jitter : BackoffConfig → ℕ → Option ℕ → BackoffDelay
with_jitter c rng none = refused overflow_error
with_jitter c rng (some delay) =
    if leb delay 0 || leb c.jitter 0
    then delayed (delay * one * one)
    else if ltb one rng
    then refused value_error
    else delayed (jittered delay (min c.jitter one) rng)

-- `rng` is the next random number, and the configured numbers are floats, as they are declared.
unfoldable pub bounded_exponential_backoff : ℕ → BackoffConfig → ℕ → BackoffDelay
unfolding with_jitter
bounded_exponential_backoff attempt c rng =
    if ltb attempt 1 then refused value_error else with_jitter c rng (capped_delay attempt c)

-- What a call of `operation` does.
pub data Call (T E : Type 0) : Type 0 where
  returns : T → Call T E
  raises : E → Call T E

-- How `retry_sync` ends: with a value, with the operation's exception, or with one of the backoff.
pub data Outcome (T E : Type 0) : Type 0 where
  result : T → Outcome T E
  raised : E → Outcome T E
  backoff_error : BackoffError → Outcome T E

-- One round of `on_retry` and `sleep`.
pub record Retry (E : Type 0) : Type 0 where
  pub attempt : ℕ
  pub error : E
  pub delay : ℕ

abbrev pub Run : Type 0 → Type 0 → Type 0
Run T E = Option (Outcome T E × List (Retry E))

abbrev pub and_then : {T E : Type 0} → Retry E → Run T E → Run T E
and_then r none = none
and_then r (some (o, rs)) = some (o, r ∷ rs)

-- `operation` and `rng` are given by attempt.
module _ {T E : Type 0} (operation : ℕ → Call T E) (retryable : E → Bool) (rng : ℕ → ℕ) where
  -- The loop from an attempt on, with fuel; `none` means that the fuel ran out.
  unfoldable pub retry_from : RetryConfig → ℕ → ℕ → Run T E
  unfolding bounded_exponential_backoff
  retry_from c zero attempt = none
  retry_from c (suc fuel) attempt = elim (operation attempt) [
    | returns x ↦ some (result x, [])
    | raises e ↦ elim (leb c.max_attempts attempt || not (retryable e)) [
      | true ↦ some (raised e, [])
      | false ↦ elim (bounded_exponential_backoff attempt c.backoff (rng attempt)) [
        | refused x ↦ some (backoff_error x, [])
        | delayed d ↦
            and_then (record { attempt = attempt; error = e; delay = d })
              (retry_from c fuel (suc attempt))
      ]
    ]
  ]

  unfoldable pub retry_sync : RetryConfig → Run T E
  unfolding retry_from
  retry_sync c = retry_from c (c.max_attempts + 1) 1
