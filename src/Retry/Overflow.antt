-- ===== src/Retry/Overflow.antt =====
-- How `retry_sync` of routemq/retry.py ends when the backoff overflows.
use native.Mathlib.Decide.{ℕ_discrete}
use route_mq.Prelude.{
  ℕ, suc, ◌+◌, ◌≤◌, ◌≡◌, ap, ◌∙◌, inl, inr, Bool, true, some, List, [], ◌∷◌, arith, length,
}
use route_mq.Retry.{
  one, RetryConfig, Call, raises, Outcome, result, raised, backoff_error, overflow_error, Retry,
  retry_sync,
}
use route_mq.Retry.Backoff.{
  bounded_exponential_backoff_bounds, bounded_exponential_backoff-overflow,
}
use route_mq.Retry.Loop.{Explains, retry_sync-Explains}

module _ {T E : Type 0} (operation : ℕ → Call T E) (retryable : E → Bool) (rng : ℕ → ℕ)
    (failure : ℕ → E) where
  Explains-overflow :
      (c : RetryConfig) (attempt : ℕ) (o : Outcome T E) (rs : List (Retry E))
      → 1 ≤ attempt
      → attempt ≤ 1025
      → 1026 ≤ c.max_attempts
      → ((n : ℕ) → rng n ≤ one)
      → ((n : ℕ) → n ≤ 1025 → operation n ≡ raises (failure n))
      → ((n : ℕ) → n ≤ 1025 → retryable (failure n) ≡ true)
      → Explains operation retryable rng c attempt o rs
      → (o ≡ backoff_error overflow_error) × (attempt + length rs ≡ 1025)
  Explains-overflow c attempt (result x) [] ge le many unit fails again ends =
      cc (ends, fails attempt le)
  Explains-overflow c attempt (raised e) [] ge le many unit fails again (here, why) = elim why [
    | inl last ↦ absurd (omega (arith, last, le, many))
    | inr final ↦ cc (here, fails attempt le, again attempt le, final)
  ]
  Explains-overflow c attempt (backoff_error x) [] ge le many unit fails again
        (e, here, before, re, stop) =
      elim (ℕ_discrete attempt 1025) [
        | yes last ↦ (
          cc (
            stop,
            bounded_exponential_backoff-overflow attempt (rng attempt) c.backoff
                (omega (arith, last)),
          ),
          omega (arith, last),
        )
        | no earlier ↦
            let (d, given, most, least) =
              bounded_exponential_backoff_bounds attempt (rng attempt) c.backoff ge
                (omega (arith, earlier, le)) (unit attempt) in
            cc (stop, given)
      ]
  Explains-overflow c attempt o (r ∷ rs) ge le many unit fails again
        (at, here, before, re, given, rest) =
      elim (ℕ_discrete attempt 1025) [
        | yes last ↦ cc (
          given,
          bounded_exponential_backoff-overflow attempt (rng attempt) c.backoff
              (omega (arith, last)),
        )
        | no earlier ↦
            let (same, rounds) =
              Explains-overflow c (suc attempt) o rs (omega arith) (omega (arith, earlier, le)) many
                unit fails again rest in
            (same, omega (arith, rounds))
      ]

  -- With more than 1025 attempts allowed, an operation whose attempts up to the 1025th fail, each
  -- in a way that may be retried, ends with OverflowError after 1024 sleeps: `max_delay` does not
  -- bound the backoff there, and neither a later attempt nor the operation's own exception is seen.
  -- The random numbers are at most 1.
  pub retry_sync-overflows :
      (c : RetryConfig)
      → 1026 ≤ c.max_attempts
      → ((n : ℕ) → rng n ≤ one)
      → ((n : ℕ) → n ≤ 1025 → operation n ≡ raises (failure n))
      → ((n : ℕ) → n ≤ 1025 → retryable (failure n) ≡ true)
      → (rs : List (Retry E)) × (retry_sync operation retryable rng c
          ≡ some (backoff_error overflow_error, rs))
        × (length rs ≡ 1024)
  retry_sync-overflows c many unit fails again =
      let (o, rs, eq, ex, len) =
        retry_sync-Explains operation retryable rng c (omega (arith, many)) in
      let (same, rounds) =
        Explains-overflow c 1 o rs (omega arith) (omega arith) many unit fails again ex in
      (rs, eq ∙ ap (λ x. some (x, rs)) same, omega (arith, rounds))
