-- ===== src/Job/Delay.antt =====
-- How long a job waits before it is tried again.
use route_mq.Prelude.{
  ℕ, ◌-◌, ◌*◌, ◌^◌, ◌≤◌, ◌≡◌, refl, ap, ◌∙◌, min, max, inl, inr, Bool, true, ◌||◌, Option, arith,
  ltb, Bool-cases,
}
use route_mq.Prelude.Int.{ℤ, pos}
use route_mq.Retry.{one, valid, BackoffConfig, backoff_config}
use route_mq.Retry.Backoff.{bounded_exponential_backoff_bounds}
use route_mq.Job.{
  Job, max_int, configured_max_delay, configured_jitter, delay, from_backoff, get_retry_delay,
  delay_from,
}

abbrev pub job_backoff : (lo hi jitter : ℕ) → BackoffConfig
job_backoff lo hi jitter = record { min_delay = lo; max_delay = max hi lo; jitter = jitter }

backoff_config-valid :
    (lo hi jitter : ℕ)
    → backoff_config (pos lo) (pos (max hi lo)) (pos jitter) ≡ valid (job_backoff lo hi jitter)
unfolding backoff_config
backoff_config-valid lo hi jitter = elim (Bool-cases (ltb (max hi lo) lo)) [
  | inl small ↦ absurd (ground arith)
  | inr fits ↦ rw fits refl
]

job_config :
    (job : Job) (max_delay : Option ℤ) (jitter : ℤ) (lo hi j : ℕ)
    → job.retry_after ≡ pos lo
    → configured_max_delay job max_delay ≡ pos hi
    → configured_jitter job jitter ≡ pos j
    → backoff_config job.retry_after
        (max_int (configured_max_delay job max_delay) job.retry_after)
        (configured_jitter job jitter)
      ≡ valid (job_backoff lo hi j)
job_config job max_delay jitter lo hi j after_lo cap_hi jitter_j =
    let cap = configured_max_delay job max_delay in
    let jit = configured_jitter job jitter in
    ap (λ a. backoff_config a (max_int cap a) jit) after_lo
    ∙ ap (λ m. backoff_config (pos lo) (max_int m (pos lo)) jit) cap_hi
    ∙ ap (λ x. backoff_config (pos lo) (pos (max hi lo)) x) jitter_j
    ∙ backoff_config-valid lo hi j

get_retry_delay-opted :
    (job : Job) (attempts : ℕ) (backoff_enabled : Bool) (max_delay : Option ℤ) (jitter : ℤ)
    → (rng : ℕ) → (job.retry_backoff_enabled || backoff_enabled) ≡ true
    → get_retry_delay job attempts backoff_enabled max_delay jitter rng
      ≡ delay_from attempts rng (
          backoff_config job.retry_after
            (max_int (configured_max_delay job max_delay) job.retry_after)
            (configured_jitter job jitter))
unfolding get_retry_delay
get_retry_delay-opted job attempts backoff_enabled max_delay jitter rng opted = rw opted refl

-- Where backoff is opted in, the fixed delay, the cap and the jitter are not negative, there were at
-- most 1024 attempts, and the random number is at most 1, a delay is returned. It is at most the cap
-- or the fixed delay, the larger of them, and at least the share 1 - jitter of the smaller of this
-- and the fixed delay doubled once for each attempt after the first.
pub get_retry_delay_bounds :
    (job : Job) (attempts : ℕ) (backoff_enabled : Bool) (max_delay : Option ℤ) (jitter : ℤ)
    → (rng lo hi j : ℕ) → (job.retry_backoff_enabled || backoff_enabled) ≡ true
    → job.retry_after ≡ pos lo
    → configured_max_delay job max_delay ≡ pos hi
    → configured_jitter job jitter ≡ pos j
    → attempts ≤ 1024
    → rng ≤ one
    → (d : ℕ) × (get_retry_delay job attempts backoff_enabled max_delay jitter rng ≡ delay (pos d))
      × (d ≤ max hi lo * one * one)
      × (min (max hi lo) (lo * 2 ^ (max 1 attempts - 1)) * (one - min j one) * one ≤ d)
get_retry_delay_bounds job attempts backoff_enabled max_delay jitter rng lo hi j opted after_lo
      cap_hi jitter_j few h =
    let (d, given, most, least) =
      bounded_exponential_backoff_bounds (max 1 attempts) rng (job_backoff lo hi j) (omega arith)
        (omega (arith, few)) h in
    let config = job_config job max_delay jitter lo hi j after_lo cap_hi jitter_j in
    let found =
      get_retry_delay-opted job attempts backoff_enabled max_delay jitter rng opted
      ∙ ap (delay_from attempts rng) config
      ∙ ap from_backoff given in
    (d, found, most, least)
