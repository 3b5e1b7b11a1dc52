-- ===== src/Examples/Limits.antt =====
-- Runs of app/middleware/rate_limit.py.
use route_mq.Prelude.{
  All, ℕ, ◌+◌, ◌*◌, ◌-◌, ◌≤◌, ◌≡◌, refl, true, false, none, some, List, [], ◌∷◌, arith,
}
use route_mq.RateLimit.{
  Strategy, sliding_window, fixed_window, token_bucket, Key, Config, Entry, Limiter, granted,
  second, window, fresh_entry, check_entry, sliding_window_memory, fixed_window_memory,
  token_bucket_memory, check_rate_limit_memory, find_entry,
}
use route_mq.RateLimit.Handling.{
  Redis, off, failing, answers, exceeds, is_whitelisted, check_rate_limit, handle, forwarded_for,
  handle-fits,
}
use route_mq.RateLimit.{refused, put_entry, cleanup_memory_cache}
use route_mq.RateLimit.Runs.{passes, Ascending, admitted, count}
use route_mq.RateLimit.Sliding.{in_window}
use route_mq.RateLimit.Fixed.{starts_at, fixed_window_memory-fits}
use route_mq.RateLimit.Bucket.{between, token_bucket_memory-flows}
use route_mq.RateLimit.Cache.{Request, Within, times_of, allowed_for, served, allowed_for-served}
use route_mq.RateLimit.Cleanup.{check_rate_limit_memory-fits, check_rate_limit_memory-forgets}

-- Two requests in ten seconds.
abbrev limit : Strategy → Config
limit s = record {
  max_requests = 2;
  window_seconds = 10;
  strategy = s;
  burst_allowance = 1;
  fallback_enabled = true;
  whitelist = [];
}

abbrev at : ℕ → ℕ
at t = t * second

abbrev burst : List ℕ
burst = at 100 ∷ at 101 ∷ at 102 ∷ at 109 ∷ at 111 ∷ at 112 ∷ []

burst-Ascending : Ascending 0 burst
burst-Ascending =
    (omega arith, (omega arith, (omega arith, (omega arith, (omega arith, (omega arith, tt))))))

admissions :
    (admitted (sliding_window_memory (limit sliding_window)) (fresh_entry (at 100)) burst
      ≡ at 100 ∷ at 101 ∷ at 111 ∷ at 112 ∷ [])
    × (admitted (fixed_window_memory (limit fixed_window)) (fresh_entry (at 100)) burst
        ≡ at 100 ∷ at 101 ∷ at 111 ∷ at 112 ∷ [])
    × (admitted (token_bucket_memory (limit token_bucket)) (fresh_entry (at 100)) burst
        ≡ at 100 ∷ at 101 ∷ at 109 ∷ at 111 ∷ [])
unfolding sliding_window_memory fixed_window_memory token_bucket_memory
admissions = (refl, refl, refl)

fixed_window_memory-fits_example :
    count
      (starts_at (limit fixed_window) (at 100))
      (admitted (fixed_window_memory (limit fixed_window)) (fresh_entry (at 100)) burst)
    ≤ 2
fixed_window_memory-fits_example =
    fixed_window_memory-fits (limit fixed_window) (fresh_entry (at 100)) burst (at 100)
      (omega arith) refl refl burst-Ascending

token_bucket_memory-flows_example :
    count
        (between (at 100) (at 105))
        (admitted (token_bucket_memory (limit token_bucket)) (fresh_entry (at 100)) burst)
      * window (limit token_bucket)
    ≤ (2 + 1) * window (limit token_bucket) + (at 105 - at 100) * 2
token_bucket_memory-flows_example =
    token_bucket_memory-flows (limit token_bucket) (fresh_entry (at 100)) burst (at 100) (at 105)
      (omega arith) burst-Ascending (omega arith)

abbrev a_key : Key
a_key = 97 ∷ []

abbrev b_key : Key
b_key = 98 ∷ []

abbrev started_up : Limiter
started_up = record { memory_cache = []; last_cleanup = at 39 }

-- The first request makes a cleanup.
abbrev asked : List Request
asked = (a_key, at 100) ∷ (b_key, at 101) ∷ (a_key, at 102) ∷ (a_key, at 103) ∷ (b_key, at 104) ∷ []

asked-Within : All (Within (limit sliding_window) (at 100)) asked
asked-Within = (
  (omega arith, omega arith),
  (
    (omega arith, omega arith),
    ((omega arith, omega arith), ((omega arith, omega arith), ((omega arith, omega arith), tt))),
  ),
)

allowed :
    (allowed_for (limit sliding_window) a_key started_up asked ≡ at 100 ∷ at 102 ∷ [])
    × (allowed_for (limit sliding_window) b_key started_up asked ≡ at 101 ∷ at 104 ∷ [])
unfolding check_rate_limit_memory sliding_window_memory check_entry
allowed = (refl, refl)

allowed_for-served_example :
    allowed_for (limit sliding_window) a_key started_up asked
    ≡ served (limit sliding_window) none (times_of a_key asked)
unfolding find_entry
allowed_for-served_example =
    allowed_for-served (limit sliding_window) (at 100) a_key started_up none asked refl tt
      asked-Within

check_rate_limit_memory-fits_example :
    count
      (in_window (limit sliding_window) (at 104))
      (allowed_for (limit sliding_window) a_key started_up asked)
    ≤ 2
unfolding find_entry
check_rate_limit_memory-fits_example =
    check_rate_limit_memory-fits (limit sliding_window) (at 100) a_key started_up asked (at 104)
      refl refl asked-Within (omega arith, (omega arith, (omega arith, tt)))

-- A key with two requests in the last second, whose entry is 80 seconds old.
abbrev busy : Entry
busy = record (fresh_entry (at 20)) { requests = at 99 ∷ at 99 ∷ [] }

abbrev in_use : Limiter
in_use = record { memory_cache = (a_key, busy) ∷ []; last_cleanup = at 39 }

busy_is_refused : passes (check_entry (limit sliding_window) busy (at 100)).0 ≡ false
unfolding check_entry sliding_window_memory
busy_is_refused = refl

fresh_is_allowed :
    (check_entry (limit sliding_window) (fresh_entry (at 100)) (at 100)).0 ≡ some (granted 1 10)
unfolding check_entry sliding_window_memory
fresh_is_allowed = refl

check_rate_limit_memory-forgets_example :
    (check_rate_limit_memory (limit sliding_window) a_key (at 100) in_use).0
    ≡ (check_entry (limit sliding_window) (fresh_entry (at 100)) (at 100)).0
check_rate_limit_memory-forgets_example =
    check_rate_limit_memory-forgets (limit sliding_window) a_key (at 100) in_use (omega arith)
      ((λ same. refl), tt)

-- Redis fails throughout; the whitelisted key takes no part.
abbrev open_to_c : Config
open_to_c = record (limit sliding_window) { whitelist = (99 ∷ []) ∷ [] }

abbrev messages : List (Redis × Request)
messages =
    (failing, (a_key, at 100))
    ∷ (failing, (99 ∷ [], at 101))
    ∷ (off, (a_key, at 102))
    ∷ (failing, (a_key, at 103))
    ∷ []

forwards :
    (forwarded_for open_to_c a_key started_up messages ≡ at 100 ∷ at 102 ∷ [])
    × (forwarded_for open_to_c (99 ∷ []) started_up messages ≡ at 101 ∷ [])
    × ((handle open_to_c (answers (refused 3)) a_key (at 100) started_up).0 ≡ exceeds 0 3)
unfolding handle check_rate_limit check_rate_limit_memory is_whitelisted check_entry
    sliding_window_memory find_entry put_entry cleanup_memory_cache
forwards = (refl, refl, refl)

handle-fits_example :
    count (in_window open_to_c (at 104)) (forwarded_for open_to_c a_key started_up messages) ≤ 2
unfolding find_entry is_whitelisted
handle-fits_example =
    handle-fits open_to_c (at 100) a_key started_up messages (at 104) refl refl refl refl
      (tt, (tt, (tt, (tt, tt))))
      (
        (omega arith, omega arith),
        (
          (omega arith, omega arith),
          ((omega arith, omega arith), ((omega arith, omega arith), tt)),
        ),
      )
      (omega arith, (omega arith, (omega arith, tt)))
