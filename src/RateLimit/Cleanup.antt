-- ===== src/RateLimit/Cleanup.antt =====
-- `_check_rate_limit_memory` and `_cleanup_memory_cache` of app/middleware/rate_limit.py, over the
-- requests of many keys.
use route_mq.Prelude.{
  ℕ, ◌+◌, ◌*◌, ◌≤◌, ◌<◌, ◌≡◌, refl, inl, inr, true, not, none, List, [], ◌∷◌, arith, ltb, All,
  select, Bool-cases,
}
use route_mq.RateLimit.{
  Key, Config, sliding_window, second, Entry, Checked, Limiter, is_old, key_eq, find_entry,
  cleanup_memory_cache, fresh_entry, check_entry, sliding_window_memory, check_rate_limit_memory,
}
use route_mq.RateLimit.Runs.{admitted, Ascending, count}
use route_mq.RateLimit.Sliding.{in_window, sliding_window_memory-fits}
use route_mq.RateLimit.Cache.{Request, times_of, allowed_for, served, Within, allowed_for-served}

admitted-cong :
    (f g : Entry → ℕ → Checked)
    → ((e : Entry) (t : ℕ) → f e t ≡ g e t)
    → (e : Entry) (ts : List ℕ) → admitted f e ts ≡ admitted g e ts
admitted-cong f g same e [] = refl
admitted-cong f g same e (t ∷ ts) = rw (same e t) (rw (admitted-cong f g same (g e t).1 ts) refl)

sliding-check :
    (c : Config) (e : Entry) (t : ℕ)
    → c.strategy ≡ sliding_window
    → check_entry c e t ≡ sliding_window_memory c e t
unfolding check_entry
sliding-check c e t h = rw h refl

served-fits :
    (c : Config) (ts : List ℕ) (at : ℕ)
    → c.strategy ≡ sliding_window
    → Ascending 0 ts
    → count (in_window c at) (served c none ts) ≤ c.max_requests
served-fits c [] at h k = omega arith
served-fits c (t ∷ ts) at h k =
    rw
      (admitted-cong (check_entry c) (sliding_window_memory c) (λ e t. sliding-check c e t h)
        (fresh_entry t) (t ∷ ts))
      (sliding_window_memory-fits c (fresh_entry t) (t ∷ ts) at refl k)

-- With the sliding window, for a key that the cache does not hold, and until two windows after
-- its requests may start: at every time, at most `max_requests` of the requests that were allowed
-- to the key are younger than the window, whatever other keys ask and whenever entries are cleaned
-- up, where the key's times do not go back.
pub check_rate_limit_memory-fits :
    (c : Config) (start : ℕ) (k : Key) (l : Limiter) (rs : List Request) (at : ℕ)
    → c.strategy ≡ sliding_window
    → find_entry k l.memory_cache ≡ none
    → All (Within c start) rs
    → Ascending 0 (times_of k rs)
    → count (in_window c at) (allowed_for c k l rs) ≤ c.max_requests
check_rate_limit_memory-fits c start k l rs at strategy new within ascending =
    rw (allowed_for-served c start k l none rs new tt within)
      (served-fits c (times_of k rs) at strategy ascending)

find_cleanup :
    (k : Key) (now : ℕ) (c : Config) (es : List (Key × Entry))
    → All (λ (j, e). key_eq k j ≡ true → is_old c now e ≡ true) es
    → find_entry k (select (λ (j, e). not (is_old c now e)) es) ≡ none
unfolding find_entry
find_cleanup k now c [] h = refl
find_cleanup k now c ((j, e) ∷ es) h = elim (Bool-cases (key_eq k j)) [
  | inl same ↦ rw (h.0 same) (find_cleanup k now c es h.1)
  | inr other ↦ ground (arith, find_cleanup k now c es h.1)
]

-- When a cleanup is due, a key whose entry was made more than two windows ago is answered as if it
-- had never asked, whatever the entry has counted since.
pub check_rate_limit_memory-forgets :
    (c : Config) (k : Key) (now : ℕ) (l : Limiter)
    → l.last_cleanup + 60 * second < now
    → All (λ (j, e). key_eq k j ≡ true → is_old c now e ≡ true) l.memory_cache
    → (check_rate_limit_memory c k now l).0 ≡ (check_entry c (fresh_entry now) now).0
unfolding check_rate_limit_memory cleanup_memory_cache
check_rate_limit_memory-forgets c k now l due old =
    let is_due : ltb (l.last_cleanup + 60 * second) now ≡ true = ground (arith, due) in
    rw is_due (rw (find_cleanup k now c l.memory_cache old) refl)
