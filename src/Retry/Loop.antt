-- ===== src/Retry/Loop.antt =====
-- What `retry_sync` of routemq/retry.py does, round by round.
use route_mq.Prelude.{
  ℕ, zero, suc, ◌+◌, ◌-◌, ◌≤◌, ◌<◌, ◌≡◌, refl, ◌⊎◌, inl, inr, Bool, true, false, some, List, [],
  ◌∷◌, arith, leb, not, ◌||◌, length, Bool-cases,
}
use route_mq.Retry.{
  RetryConfig, Call, returns, raises, Outcome, result, raised, backoff_error, BackoffDelay, delayed,
  refused, Retry, Run, and_then, bounded_exponential_backoff, retry_from, retry_sync,
}

Call-cases :
    {T E : Type 0} (m : Call T E) → ((x : T) × (m ≡ returns x)) ⊎ ((e : E) × (m ≡ raises e))
Call-cases (returns x) = inl (x, refl)
Call-cases (raises e) = inr (e, refl)

module _ {T E : Type 0} (operation : ℕ → Call T E) (retryable : E → Bool) (rng : ℕ → ℕ) where
  -- The attempt at which the loop ends, by its outcome.
  abbrev pub Ends : RetryConfig → ℕ → Outcome T E → Type 0
  Ends c attempt (result x) = operation attempt ≡ returns x
  Ends c attempt (raised e) =
      (operation attempt ≡ raises e) × ((c.max_attempts ≤ attempt) ⊎ (retryable e ≡ false))
  Ends c attempt (backoff_error x) =
      (e : E) × (operation attempt ≡ raises e)
      × (attempt < c.max_attempts)
      × (retryable e ≡ true)
      × (bounded_exponential_backoff attempt c.backoff (rng attempt) ≡ refused x)

  -- The rounds from an attempt on, each with a failure that may be retried, and then the end.
  abbrev pub Explains : RetryConfig → ℕ → Outcome T E → List (Retry E) → Type 0
  Explains c attempt o [] = Ends c attempt o
  Explains c attempt o (r ∷ rs) =
      (r.attempt ≡ attempt)
      × (operation attempt ≡ raises r.error)
      × (attempt < c.max_attempts)
      × (retryable r.error ≡ true)
      × (bounded_exponential_backoff attempt c.backoff (rng attempt) ≡ delayed r.delay)
      × Explains c (suc attempt) o rs

  abbrev Explained : RetryConfig → ℕ → Run T E → Type 0
  Explained c attempt run =
      (o : Outcome T E) × (rs : List (Retry E)) × (run ≡ some (o, rs))
      × Explains c attempt o rs
      × (length rs ≤ c.max_attempts - attempt)

  failing_round :
      (c : RetryConfig) (attempt : ℕ) (e : E) (rest : Run T E)
      → operation attempt ≡ raises e
      → (d : BackoffDelay) → bounded_exponential_backoff attempt c.backoff (rng attempt) ≡ d
      → (attempt < c.max_attempts)
      → retryable e ≡ true
      → Explained c (suc attempt) rest
      → Explained c attempt (elim d [
        | refused x ↦ some (backoff_error x, [])
        | delayed d ↦ and_then (record { attempt = attempt; error = e; delay = d }) rest
      ])
  failing_round c attempt e rest op (refused x) b lt re ex =
      (backoff_error x, [], refl, (e, op, lt, re, b), omega arith)
  failing_round c attempt e rest op (delayed d) b lt re (o, rs, eq, ex, len) = (
    o,
    record { attempt = attempt; error = e; delay = d } ∷ rs,
    rw eq,
    (refl, op, lt, re, b, ex),
    omega arith,
  )

  retry_from-Explained :
      (c : RetryConfig) (fuel attempt : ℕ)
      → attempt ≤ c.max_attempts
      → c.max_attempts < fuel + attempt
      → Explained c attempt (retry_from operation retryable rng c fuel attempt)
  unfolding retry_from
  retry_from-Explained c zero attempt le h = absurd (omega arith)
  retry_from-Explained c (suc fuel) attempt le h = elim (Call-cases (operation attempt)) [
    | inl (x, op) ↦ rw (op, retry_from) (result x, [], refl, op, omega arith)
    | inr (e, op) ↦
        rw (op, retry_from)
          (elim (Bool-cases (leb c.max_attempts attempt || not (retryable e))) [
            | inl stop ↦ rw stop (raised e, [], refl, (op, ground arith), omega arith)
            | inr go ↦ rw go (
                failing_round c attempt e (retry_from operation retryable rng c fuel (suc attempt))
                  op _ refl (ground arith) (ground arith)
                  (retry_from-Explained c fuel (suc attempt) (ground arith) (omega arith)))
          ])
  ]

  -- With at least one attempt, the loop ends. Its rounds are the attempts 1, 2, ... in order, each
  -- a failure that may be retried, before the last attempt, and slept for its backoff delay. It
  -- ends at the attempt that follows them: with its value, or with its exception if that may not be
  -- retried or no attempt is left, or otherwise with the exception that the backoff raises for this
  -- attempt. So there are fewer sleeps than attempts allowed.
  pub retry_sync-Explains :
      (c : RetryConfig)
      → 1 ≤ c.max_attempts
      → (o : Outcome T E) × (rs : List (Retry E)) × (retry_sync operation retryable rng c
          ≡ some (o, rs))
        × Explains c 1 o rs
        × (length rs < c.max_attempts)
  unfolding retry_sync
  retry_sync-Explains c h =
      let (o, rs, eq, ex, len) = retry_from-Explained c (c.max_attempts + 1) 1 h (omega arith) in
      (o, rs, eq, ex, omega arith)
