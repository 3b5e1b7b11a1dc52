-- ===== src/RateLimit/Handling.antt =====
-- `handle`, `_check_rate_limit` and `_is_whitelisted` of app/middleware/rate_limit.py, for the key
-- of the message. What Redis answers is a parameter.
use route_mq.Prelude.{
  ℕ, ◌-◌, ◌≤◌, ◌≡◌, refl, inl, inr, Bool, true, false, ◌&&◌, ◌||◌, Option, none, some, List, [],
  ◌∷◌, ◌==◌, arith, All, if◌then◌else◌, Bool-cases, subst, map,
}
use route_mq.RateLimit.{
  Key, Config, sliding_window, Verdict, granted, Limiter, key_eq, find_entry,
  check_rate_limit_memory,
}
use route_mq.RateLimit.Runs.{passes, Ascending, count}
use route_mq.RateLimit.Sliding.{in_window}
use route_mq.RateLimit.Cache.{Request, key_eq→≡, times_of, allowed_for, Within}
use route_mq.RateLimit.Cleanup.{check_rate_limit_memory-fits}

abbrev starts_with : Key → Key → Bool
starts_with [] k = true
starts_with (c ∷ cs) [] = false
starts_with (c ∷ cs) (d ∷ ds) = c == d && starts_with cs ds

-- `pattern in key`
abbrev occurs_in : Key → Key → Bool
occurs_in p [] = starts_with p []
occurs_in p (d ∷ ds) = starts_with p (d ∷ ds) || occurs_in p ds

-- `_is_whitelisted`
unfoldable pub is_whitelisted : List Key → Key → Bool
is_whitelisted [] k = false
is_whitelisted (p ∷ ps) k = (occurs_in p k || starts_with p k) || is_whitelisted ps k

-- Redis is switched off, or its check raises or answers.
pub data Redis : Type 0 where
  off failing : Redis
  answers : Verdict → Redis

abbrev without_redis : Config → Key → ℕ → Limiter → Option Verdict × Limiter
without_redis c k now l =
    if c.fallback_enabled
    then check_rate_limit_memory c k now l
    else (some (granted (c.max_requests - 1) c.window_seconds), l)

-- `_check_rate_limit`
unfoldable pub check_rate_limit : Config → Redis → Key → ℕ → Limiter → Option Verdict × Limiter
check_rate_limit c off k now l = without_redis c k now l
check_rate_limit c failing k now l = without_redis c k now l
check_rate_limit c (answers v) k now l = (some v, l)

-- What becomes of a message: it goes on to the next handler, past the limit or within it, is
-- answered with an error, or raises.
pub data Handled : Type 0 where
  whitelisted raised : Handled
  within exceeds : ℕ → ℕ → Handled

abbrev decided : Option Verdict → Handled
decided none = raised
decided (some v) =
    if v.allowed then within v.remaining v.reset_time else exceeds v.remaining v.reset_time

-- `handle`
unfoldable pub handle : Config → Redis → Key → ℕ → Limiter → Handled × Limiter
unfolding check_rate_limit is_whitelisted
handle c redis k now l =
    if is_whitelisted c.whitelist k
    then (whitelisted, l)
    else (let (v, l') = check_rate_limit c redis k now l in (decided v, l'))

abbrev pub goes_on : Handled → Bool
goes_on whitelisted = true
goes_on (within n t) = true
goes_on _ = false

-- The times at which the next handler is called for a key. Redis may be in another state at each
-- message.
abbrev pub forwarded_for : Config → Key → Limiter → List (Redis × Request) → List ℕ
forwarded_for c k l [] = []
forwarded_for c k l ((redis, (j, t)) ∷ rs) =
    let (h, l') = handle c redis j t l in
    let rest = forwarded_for c k l' rs in if key_eq k j && goes_on h then t ∷ rest else rest

-- Redis does not answer.
abbrev pub Silent : Redis × Request → Type 0
Silent (off, r) = Unit
Silent (failing, r) = Unit
Silent (answers v, r) = ⊥

-- The requests that reach the limiter.
abbrev pub limited : Config → List (Redis × Request) → List Request
limited c [] = []
limited c ((redis, r) ∷ rs) =
    if is_whitelisted c.whitelist r.0 then limited c rs else r ∷ limited c rs

goes_on-decided : (v : Option Verdict) → goes_on (decided v) ≡ passes v
goes_on-decided none = refl
goes_on-decided (some v) = ground arith

check-Silent :
    (c : Config) (redis : Redis) (r : Request) (l : Limiter)
    → c.fallback_enabled ≡ true
    → Silent (redis, r)
    → check_rate_limit c redis r.0 r.1 l ≡ check_rate_limit_memory c r.0 r.1 l
unfolding check_rate_limit
check-Silent c off r l fallback h = rw fallback refl
check-Silent c failing r l fallback h = rw fallback refl
check-Silent c (answers v) r l fallback h = absurd h

not_same :
    (c : Config) (k j : Key)
    → is_whitelisted c.whitelist k ≡ false
    → is_whitelisted c.whitelist j ≡ true
    → key_eq k j ≡ false
not_same c k j known free = elim (Bool-cases (key_eq k j)) [
  | inl same ↦
      let clash : is_whitelisted c.whitelist j ≡ false =
        subst (λ i. is_whitelisted c.whitelist i ≡ false) (key_eq→≡ k j same) known in
      absurd (ground arith)
  | inr other ↦ other
]

times_of-limited :
    (c : Config) (k : Key) (rs : List (Redis × Request))
    → is_whitelisted c.whitelist k ≡ false
    → times_of k (limited c rs) ≡ times_of k (map (λ r. r.1) rs)
times_of-limited c k [] known = refl
times_of-limited c k ((redis, (j, t)) ∷ rs) known =
    let rest = times_of-limited c k rs known in
    elim (Bool-cases (is_whitelisted c.whitelist j)) [
      | inl free ↦ rw free (rw (not_same c k j known free) rest)
      | inr bound ↦ rw bound (rw rest refl)
    ]

All-limited :
    (P : Request → Type 0) (c : Config) (rs : List (Redis × Request))
    → All P (map (λ r. r.1) rs)
    → All P (limited c rs)
All-limited P c [] h = tt
All-limited P c ((redis, r) ∷ rs) h = elim (Bool-cases (is_whitelisted c.whitelist r.0)) [
  | inl free ↦ rw free (All-limited P c rs h.1)
  | inr bound ↦ rw bound (h.0, All-limited P c rs h.1)
]

forwarded_for-limited :
    (c : Config) (k : Key) (l : Limiter) (rs : List (Redis × Request))
    → c.fallback_enabled ≡ true
    → is_whitelisted c.whitelist k ≡ false
    → All Silent rs
    → forwarded_for c k l rs ≡ allowed_for c k l (limited c rs)
unfolding handle
forwarded_for-limited c k l [] fallback known h = refl
forwarded_for-limited c k l ((redis, (j, t)) ∷ rs) fallback known h =
    elim (Bool-cases (is_whitelisted c.whitelist j)) [
      | inl free ↦
          let differs : key_eq k j ≡ false = not_same c k j known free in
          rw free (rw differs (forwarded_for-limited c k l rs fallback known h.1))
      | inr bound ↦
          let next = (check_rate_limit_memory c j t l).1 in
          rw bound (
            rw (check-Silent c redis (j, t) l fallback h.0) (
              rw (goes_on-decided (check_rate_limit_memory c j t l).0)
                (rw (forwarded_for-limited c k next rs fallback known h.1) refl)))
    ]

-- With the sliding window, the fallback and no answer of Redis, for a key that is not whitelisted
-- and that the cache does not hold, and until two windows after the messages may start: at every
-- time, at most `max_requests` of the messages of the key that were handed to the next handler are
-- younger than the window, whatever other messages come, where the key's times do not go back.
pub handle-fits :
    (c : Config) (start : ℕ) (k : Key) (l : Limiter) (rs : List (Redis × Request)) (at : ℕ)
    → c.strategy ≡ sliding_window
    → c.fallback_enabled ≡ true
    → is_whitelisted c.whitelist k ≡ false
    → find_entry k l.memory_cache ≡ none
    → All Silent rs
    → All (Within c start) (map (λ r. r.1) rs)
    → Ascending 0 (times_of k (map (λ r. r.1) rs))
    → count (in_window c at) (forwarded_for c k l rs) ≤ c.max_requests
handle-fits c start k l rs at strategy fallback known new silent timely ascending =
    rw (forwarded_for-limited c k l rs fallback known silent) (
      check_rate_limit_memory-fits c start k l (limited c rs) at strategy new
        (All-limited (Within c start) c rs timely) (rw (times_of-limited c k rs known) ascending))
