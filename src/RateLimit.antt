-- ===== src/RateLimit.antt =====
-- app/middleware/rate_limit.py: `RateLimitMiddleware` with its strategies in memory. Times are
-- microseconds, and keys are lists of code points.
pub mod Runs
pub mod Sliding
pub mod Fixed
pub mod Bucket
pub mod Cache
pub mod Cleanup
pub mod Handling
use route_mq.Prelude.{
  ℕ, zero, suc, ◌+◌, ◌-◌, ◌*◌, ◌/◌, min, max, Bool, true, false, not, ◌&&◌, ◌||◌, Option, none,
  some, List, [], ◌∷◌, ◌++◌, ltb, leb, ◌==◌, length, select, if◌then◌else◌,
}

pub data Strategy : Type 0 where
  sliding_window fixed_window token_bucket : Strategy

abbrev pub Key : Type 0
Key = List ℕ

pub record Config : Type 0 where
  pub max_requests : ℕ
  pub window_seconds : ℕ
  pub strategy : Strategy
  pub burst_allowance : ℕ
  pub fallback_enabled : Bool
  pub whitelist : List Key

abbrev pub second : ℕ
second = 1000000

-- The window in microseconds.
abbrev pub window : Config → ℕ
window c = c.window_seconds * second

-- Tokens are counted in parts: one token is `window c` parts, so that a microsecond brings
-- `max_requests` parts. A number below zero is owed, with no parts.
pub record Tokens : Type 0 where
  pub parts : ℕ
  pub owed : ℕ
  pub last_refill : ℕ

-- An entry of `_memory_cache`; a missing `window_start` reads as 0.
pub record Entry : Type 0 where
  pub requests : List ℕ
  pub created : ℕ
  pub window_start : ℕ
  pub tokens : Option Tokens

-- (allowed, remaining, reset_time)
pub record Verdict : Type 0 where
  pub allowed : Bool
  pub remaining : ℕ
  pub reset_time : ℕ

-- `none` is an exception: the least of no requests, or a division by zero.
abbrev pub Checked : Type 0
Checked = Option Verdict × Entry

abbrev pub refused : ℕ → Verdict
refused reset = record { allowed = false; remaining = 0; reset_time = reset }

abbrev pub granted : ℕ → ℕ → Verdict
granted remaining reset = record { allowed = true; remaining = remaining; reset_time = reset }

abbrev oldest : List ℕ → Option ℕ
oldest [] = none
oldest (t ∷ ts) = elim (oldest ts) [ none ↦ some t | some u ↦ some (min t u) ]

abbrev refuse_until : Config → ℕ → Option ℕ → Option Verdict
refuse_until c now none = none
refuse_until c now (some t) = some (refused (max ((t + window c - now) / second) 1))

-- `req_time > current_time - self.window_seconds`
abbrev pub recent : Config → ℕ → List ℕ → List ℕ
recent c now = select λ t. ltb now (t + window c)

unfoldable pub sliding_window_memory : Config → Entry → ℕ → Checked
sliding_window_memory c e now =
    let kept = recent c now e.requests in
    if leb c.max_requests (length kept)
    then (refuse_until c now (oldest kept), record e { requests = kept })
    else (
      some (granted (c.max_requests - (length kept + 1)) c.window_seconds),
      record e { requests = kept ++ now ∷ [] },
    )

-- `int(current_time // self.window_seconds) * self.window_seconds`
abbrev pub start_of : Config → ℕ → ℕ
start_of c now = now / window c * window c

abbrev pub entered : Config → Entry → ℕ → Entry
entered c e now =
    if e.window_start == start_of c now
    then e
    else record e { requests = []; window_start = start_of c now }

abbrev count_in : Config → Entry → ℕ → Checked
count_in c e now =
    let left = (start_of c now + window c - now) / second in
    if leb c.max_requests (length e.requests) then (some (refused (max left 1)), e) else (
      some (granted (c.max_requests - (length e.requests + 1)) left),
      record e { requests = e.requests ++ now ∷ [] },
    )

unfoldable pub fixed_window_memory : Config → Entry → ℕ → Checked
fixed_window_memory c e now =
    if c.window_seconds == 0 then (none, e) else count_in c (entered c e now) now

abbrev pub capacity : Config → ℕ
capacity c = (c.max_requests + c.burst_allowance) * window c

abbrev pub started : Config → ℕ → Option Tokens → Tokens
started c now none = record { parts = c.max_requests * window c; owed = 0; last_refill = now }
started c now (some t) = t

-- A clock that went back takes tokens away.
abbrev pub refilled : Config → ℕ → Tokens → Tokens
refilled c now t =
    let gained = t.parts + (now - t.last_refill) * c.max_requests in
    let lost = t.owed + (t.last_refill - now) * c.max_requests in
    record { parts = min (capacity c) (gained - lost); owed = lost - gained; last_refill = now }

-- With `max_requests` 0 the reset time is a division by zero, after the token has been taken.
abbrev take_token : Config → Entry → Tokens → Checked
take_token c e t =
    if ltb t.parts (window c)
    then (
      if c.max_requests == 0 then none else some (refused (c.window_seconds / c.max_requests)),
      record e { tokens = some t },
    )
    else let rest = t.parts - window c in
      (
        if c.max_requests == 0
            then none
            else some (
                granted (rest / window c)
                  ((capacity c - rest) * c.window_seconds / (window c * c.max_requests))),
        record e { tokens = some (record t { parts = rest }) },
      )

unfoldable pub token_bucket_memory : Config → Entry → ℕ → Checked
token_bucket_memory c e now =
    if c.window_seconds == 0
    then (none, record e { tokens = some (started c now e.tokens) })
    else take_token c e (refilled c now (started c now e.tokens))

unfoldable pub check_entry : Config → Entry → ℕ → Checked
unfolding sliding_window_memory fixed_window_memory token_bucket_memory
check_entry c e now = elim c.strategy [
  | sliding_window ↦ sliding_window_memory c e now
  | fixed_window ↦ fixed_window_memory c e now
  | token_bucket ↦ token_bucket_memory c e now
]

abbrev pub key_eq : Key → Key → Bool
key_eq [] [] = true
key_eq (c ∷ cs) (d ∷ ds) = c == d && key_eq cs ds
key_eq _ _ = false

pub record Limiter : Type 0 where
  pub memory_cache : List (Key × Entry)
  pub last_cleanup : ℕ

unfoldable pub find_entry : Key → List (Key × Entry) → Option Entry
find_entry k [] = none
find_entry k ((j, e) ∷ es) = if key_eq k j then some e else find_entry k es

unfoldable pub put_entry : Key → Entry → List (Key × Entry) → List (Key × Entry)
put_entry k e [] = (k, e) ∷ []
put_entry k e ((j, f) ∷ es) = if key_eq k j then (j, e) ∷ es else (j, f) ∷ put_entry k e es

abbrev pub is_old : Config → ℕ → Entry → Bool
is_old c now e = ltb (e.created + 2 * window c) now

-- `_cleanup_memory_cache`
unfoldable pub cleanup_memory_cache : Config → ℕ → Limiter → Limiter
cleanup_memory_cache c now l = record {
  memory_cache = select (λ (k, e). not (is_old c now e)) l.memory_cache;
  last_cleanup = now;
}

abbrev pub cleaned : Config → ℕ → Limiter → Limiter
cleaned c now l = if ltb (l.last_cleanup + 60 * second) now then cleanup_memory_cache c now l else l

abbrev pub fresh_entry : ℕ → Entry
fresh_entry now = record { requests = []; created = now; window_start = 0; tokens = none }

abbrev pub opened : ℕ → Option Entry → Entry
opened now none = fresh_entry now
opened now (some e) = e

abbrev pub entry_at : Key → ℕ → Limiter → Entry
entry_at k now l = opened now (find_entry k l.memory_cache)

-- `_check_rate_limit_memory`
unfoldable pub check_rate_limit_memory : Config → Key → ℕ → Limiter → Option Verdict × Limiter
unfolding cleanup_memory_cache find_entry put_entry
check_rate_limit_memory c k now l =
    let l' = cleaned c now l in
    let (v, e) = check_entry c (entry_at k now l') now in
    (v, record l' { memory_cache = put_entry k e l'.memory_cache })
