-- ===== src/Examples/Retries.antt =====
-- Runs of routemq/retry.py and of the retry delay of routemq/job.py.
use route_mq.Prelude.{
  ℕ, suc, ◌*◌, ◌-◌, ◌^◌, ◌≤◌, ◌<◌, min, max, ◌≡◌, refl, Bool, true, false, none, some, List, [],
  ◌∷◌, arith, length,
}
use route_mq.Prelude.Int.{pos}
use route_mq.Retry.{
  one, with_jitter, jittered, BackoffConfig, RetryConfig, capped_delay, delayed, refused,
  overflow_error, backoff_error, bounded_exponential_backoff, Call, returns, raises, Outcome,
  result, Retry, retry_sync,
}
use route_mq.Retry.Backoff.{bounded_exponential_backoff_bounds}
use route_mq.Job.{Job, delay, get_retry_delay}
use route_mq.Job.Delay.{get_retry_delay_bounds}
use route_mq.Retry.Overflow.{retry_sync-overflows}
use route_mq.Retry.Loop.{Explains, retry_sync-Explains}

abbrev steady : BackoffConfig
steady = record { min_delay = 2; max_delay = 30; jitter = 0 }

abbrev shaky : BackoffConfig
shaky = record { min_delay = 2; max_delay = 30; jitter = 500000 }

abbrev thrice : RetryConfig
thrice = record { backoff = steady; max_attempts = 3 }

delays :
    (bounded_exponential_backoff 1 steady 0 ≡ delayed (2 * one * one))
    × (bounded_exponential_backoff 4 steady 0 ≡ delayed (16 * one * one))
    × (bounded_exponential_backoff 9 steady 0 ≡ delayed (30 * one * one))
    × (bounded_exponential_backoff 1025 steady 0 ≡ refused overflow_error)
    × (bounded_exponential_backoff 2 shaky 0 ≡ delayed (2 * one * one))
unfolding bounded_exponential_backoff capped_delay with_jitter jittered
delays = (refl, refl, refl, refl, refl)

bounded_exponential_backoff_bounds_example :
    (d : ℕ) × (bounded_exponential_backoff 3 shaky 250000 ≡ delayed d)
    × (d ≤ 30 * one * one)
    × (min 30 (2 * 2 ^ 2) * (one - min 500000 one) * one ≤ d)
bounded_exponential_backoff_bounds_example =
    bounded_exponential_backoff_bounds 3 250000 shaky (omega arith) (omega arith) (omega arith)

-- An operation that is refused twice (error 111) and then returns 7.
abbrev third_time : ℕ → Call ℕ ℕ
third_time (suc (suc (suc n))) = returns 7
third_time _ = raises 111

abbrev always : ℕ → Bool
always e = true

retries :
    retry_sync third_time always (λ n. 0) thrice
    ≡ some (
      result 7,
      record { attempt = 1; error = 111; delay = 2 * one * one }
          ∷ record { attempt = 2; error = 111; delay = 4 * one * one }
          ∷ [],
    )
unfolding retry_sync bounded_exponential_backoff capped_delay with_jitter
retries = refl

retry_sync-Explains_example :
    (o : Outcome ℕ ℕ) × (rs : List (Retry ℕ)) × (retry_sync third_time always (λ n. 0) thrice
      ≡ some (o, rs))
    × Explains third_time always (λ n. 0) thrice 1 o rs
    × (length rs < 3)
retry_sync-Explains_example = retry_sync-Explains third_time always (λ n. 0) thrice (omega arith)

abbrev forever : RetryConfig
forever = record { backoff = steady; max_attempts = 2000 }

retry_sync-overflows_example :
    (rs : List (Retry ℕ)) × (retry_sync {T = ℕ} (λ n. raises 111) always (λ n. 0) forever
      ≡ some (backoff_error overflow_error, rs))
    × (length rs ≡ 1024)
retry_sync-overflows_example =
    retry_sync-overflows (λ n. raises 111) always (λ n. 0) (λ n. 111) forever (omega arith)
      (λ n. omega arith) (λ n h. refl) (λ n h. refl)

-- Five seconds at first, with a cap of the worker's.
abbrev mailer : Job
mailer = record {
  retry_after = pos 5;
  retry_backoff_enabled = true;
  retry_backoff_max_delay = none;
  retry_backoff_jitter = none;
}

get_retry_delay_bounds_example :
    (d : ℕ) × (get_retry_delay mailer 4 false (some (pos 30)) (pos 100000) 500000 ≡ delay (pos d))
    × (d ≤ max 30 5 * one * one)
    × (min (max 30 5) (5 * 2 ^ (max 1 4 - 1)) * (one - min 100000 one) * one ≤ d)
get_retry_delay_bounds_example =
    get_retry_delay_bounds mailer 4 false (some (pos 30)) (pos 100000) 500000 5 30 100000 refl refl
      refl refl (omega arith) (omega arith)
