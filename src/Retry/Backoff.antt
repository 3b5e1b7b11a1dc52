-- ===== src/Retry/Backoff.antt =====
-- Bounds of the backoff delays of routemq/retry.py.
use route_mq.Prelude.{
  ℕ, ◌-◌, ◌*◌, ◌^◌, ◌≤◌, min, ◌≡◌, ◌↔◌, refl, Bool-cases, inl, inr, true, false, ◌||◌, some, arith,
  ltb, leb,
}
use route_mq.Prelude.Int.{ℤ, pos}
use route_mq.Retry.{retry_config, RetryConfig, valid}
use route_mq.Retry.{
  one, BackoffConfig, max_exponent, jittered, capped_delay, delayed, refused, overflow_error,
  with_jitter, bounded_exponential_backoff,
}

scaled-le : (x r m : ℕ) → r ≤ m → x * r ≤ x * m
scaled-le x r m h = grind arith

jittered-le : (d j r : ℕ) → r ≤ one → jittered d j r ≤ d * one * one
unfolding jittered
jittered-le d j r h =
    omega
      (arith, scaled-le (d * one - d * (one - j)) r one h, scaled-le d (one - j) one (omega arith))

jittered-ge : (d j r : ℕ) → d * (one - j) * one ≤ jittered d j r
unfolding jittered
jittered-ge d j r = grind arith

share-le : (d k : ℕ) → d * (one - k) * one ≤ d * one * one
share-le d k = omega (arith, scaled-le d (one - k) one (omega arith))

-- The delay before jitter.
abbrev pub exponential : ℕ → BackoffConfig → ℕ
exponential attempt c = min c.max_delay (c.min_delay * 2 ^ (attempt - 1))

capped_delay-exponential :
    (attempt : ℕ) (c : BackoffConfig)
    → attempt ≤ 1024
    → capped_delay attempt c ≡ some (exponential attempt c)
unfolding capped_delay
capped_delay-exponential attempt c h = elim (Bool-cases (ltb max_exponent (attempt - 1))) [
  | inl far ↦ absurd (ground arith)
  | inr near ↦ rw near refl
]

with_jitter_bounds :
    (rng delay : ℕ) (c : BackoffConfig)
    → rng ≤ one
    → (d : ℕ) × (with_jitter c rng (some delay) ≡ delayed d)
      × (d ≤ delay * one * one)
      × (delay * (one - min c.jitter one) * one ≤ d)
unfolding with_jitter
with_jitter_bounds rng delay c h = elim (Bool-cases (leb delay 0 || leb c.jitter 0)) [
  | inl plain ↦ rw plain (delay * one * one, refl, omega arith, share-le delay (min c.jitter one))
  | inr random ↦ elim (Bool-cases (ltb one rng)) [
    | inl large ↦ absurd (ground arith)
    | inr fits ↦ rw random (
        rw fits (
          jittered delay (min c.jitter one) rng,
          refl,
          jittered-le delay (min c.jitter one) rng h,
          jittered-ge delay (min c.jitter one) rng,
        ))
  ]
]

-- For the attempts 1 to 1024, with a random number of at most 1, a delay is returned, whatever the
-- configuration. It is at most `max_delay`, and at least the share 1 - jitter of the smaller of
-- `max_delay` and `min_delay` doubled attempt - 1 times (a jitter above 1 counts as 1).
pub bounded_exponential_backoff_bounds :
    (attempt rng : ℕ) (c : BackoffConfig)
    → 1 ≤ attempt
    → attempt ≤ 1024
    → rng ≤ one
    → (d : ℕ) × (bounded_exponential_backoff attempt c rng ≡ delayed d)
      × (d ≤ c.max_delay * one * one)
      × (min c.max_delay (c.min_delay * 2 ^ (attempt - 1)) * (one - min c.jitter one) * one ≤ d)
unfolding bounded_exponential_backoff
bounded_exponential_backoff_bounds attempt rng c ge le h =
    let (d, given, most, least) = with_jitter_bounds rng (exponential attempt c) c h in
    let started : ltb attempt 1 ≡ false = ground arith in
    (d, rw (started, capped_delay-exponential attempt c le) given, omega (arith, most), least)

-- From attempt 1025 on the power of two is no float.
pub bounded_exponential_backoff-overflow :
    (attempt rng : ℕ) (c : BackoffConfig)
    → 1025 ≤ attempt
    → bounded_exponential_backoff attempt c rng ≡ refused overflow_error
unfolding bounded_exponential_backoff capped_delay
bounded_exponential_backoff-overflow attempt rng c h =
    let started : ltb attempt 1 ≡ false = ground arith in
    let far : ltb max_exponent (attempt - 1) ≡ true = ground arith in rw (started, far) refl

-- A configuration is accepted exactly when its four numbers are not negative, `min_delay` is at
-- most `max_delay`, and there is at least one attempt; it then holds these numbers.
pub retry_config_accepts :
    (lo hi j n : ℤ) (c : RetryConfig)
    → (retry_config lo hi j n ≡ valid c) ↔ (
        (lo ≡ pos c.min_delay)
        × (hi ≡ pos c.max_delay)
        × (j ≡ pos c.jitter)
        × (n ≡ pos c.max_attempts)
        × (c.min_delay ≤ c.max_delay)
        × (1 ≤ c.max_attempts))
unfolding retry_config
retry_config_accepts lo hi j n c = (λ h. ground arith, λ h. ground arith)
