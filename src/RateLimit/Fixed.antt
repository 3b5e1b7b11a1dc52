-- ===== src/RateLimit/Fixed.antt =====
-- `_fixed_window_memory` of app/middleware/rate_limit.py.
use route_mq.Prelude.{
  ℕ, ◌+◌, ◌/◌, ◌≤◌, ◌≡◌, refl, inl, inr, Bool, false, List, [], ◌∷◌, ◌==◌, arith, ltb, leb, length,
  length-append, if◌then◌else◌, Bool-cases,
}
use native.Mathlib.Nat.{le-div_iff_mul-le, div-mul-le_self, mul-le-mul_right}
use route_mq.RateLimit.{Config, Entry, window, start_of, entered, count_in, fixed_window_memory}
use route_mq.RateLimit.Runs.{admitted, Ascending, count, count-late, counts, count-admitted}

start_of_mono : (c : Config) (t u : ℕ) → 1 ≤ c.window_seconds → t ≤ u → start_of c t ≤ start_of c u
start_of_mono c t u w h =
    let low = div-mul-le_self t (window c) in
    mul-le-mul_right (window c)
      ((le-div_iff_mul-le {x = t / window c} {y = u} (ground arith)).1 (omega (arith, low, h)))

-- The requests whose window starts at a time.
abbrev pub starts_at : Config → ℕ → ℕ → Bool
starts_at c start t = start_of c t == start

-- The requests that an entry has counted in a window.
abbrev used : Entry → ℕ → ℕ
used e start = if e.window_start == start then length e.requests else 0

count_in-fits :
    (c : Config) (e : Entry) (t : ℕ)
    → e.window_start ≡ start_of c t
    → length e.requests ≤ c.max_requests
    → (start : ℕ)
    → (used e start + counts (starts_at c start) (count_in c e t).0 t
        ≡ used (count_in c e t).1 start)
      × ((count_in c e t).1.window_start ≡ start_of c t)
      × (length (count_in c e t).1.requests ≤ c.max_requests)
count_in-fits c e t here k start = elim (Bool-cases (leb c.max_requests (length e.requests))) [
  | inl full ↦ rw full (omega arith, here, k)
  | inr free ↦ rw free (
      let more = length-append e.requests (t ∷ []) in
      (ground (arith, here, more), here, ground (arith, more)))
]

-- Entering the window of a time forgets only requests of earlier windows.
entered-fits :
    (c : Config) (e : Entry) (t start : ℕ)
    → e.window_start ≤ start_of c t
    → length e.requests ≤ c.max_requests
    → start_of c t ≤ start
    → (used e start ≤ used (entered c e t) start)
      × ((entered c e t).window_start ≡ start_of c t)
      × (length (entered c e t).requests ≤ c.max_requests)
entered-fits c e t start low k early = elim (Bool-cases (e.window_start == start_of c t)) [
  | inl same ↦ rw same (omega arith, ground arith, k)
  | inr new ↦ rw new (ground arith, refl, omega arith)
]

check-fits :
    (c : Config) (e : Entry) (t start : ℕ)
    → 1 ≤ c.window_seconds
    → e.window_start ≤ start_of c t
    → length e.requests ≤ c.max_requests
    → start_of c t ≤ start
    → (used e start + counts (starts_at c start) (fixed_window_memory c e t).0 t
        ≤ used (fixed_window_memory c e t).1 start)
      × ((fixed_window_memory c e t).1.window_start ≡ start_of c t)
      × (length (fixed_window_memory c e t).1.requests ≤ c.max_requests)
unfolding fixed_window_memory
check-fits c e t start w low k early =
    let full = entered-fits c e t start low k early in
    let (add, here, fits) = count_in-fits c (entered c e t) t full.1 full.2 start in
    let some_window : (c.window_seconds == 0) ≡ false = ground arith in
    rw some_window (omega (arith, full, add), here, fits)

admitted-fits :
    (c : Config) (start now : ℕ) (e : Entry) (ts : List ℕ)
    → 1 ≤ c.window_seconds
    → Ascending now ts
    → e.window_start ≤ start_of c now
    → length e.requests ≤ c.max_requests
    → used e start + count (starts_at c start) (admitted (fixed_window_memory c) e ts)
      ≤ c.max_requests
admitted-fits c start now e [] w h low k = ground (arith, k)
admitted-fits c start now e (t ∷ ts) w h low k =
    let p = starts_at c start in
    let step = fixed_window_memory c in
    let mono = start_of_mono c now t w h.0 in
    elim (Bool-cases (ltb start (start_of c t))) [
      | inl late ↦
          let none_left =
            count-late p step e t (t ∷ ts) (omega arith, h.1)
              (λ u k. let later = start_of_mono c t u w k in ground (arith, later)) in
          ground (arith, none_left, k)
      | inr early ↦
          let here = check-fits c e t start w (omega (arith, mono, low)) k (ground arith) in
          let rest = admitted-fits c start t (step e t).1 ts w h.1 (omega (arith, here.1)) here.2 in
          omega (arith, count-admitted p step e t ts, here.0, rest)
    ]

-- In each window, at most `max_requests` requests are allowed, for a new entry and any times of
-- requests that do not go back, where the window is not empty.
pub fixed_window_memory-fits :
    (c : Config) (e : Entry) (ts : List ℕ) (start : ℕ)
    → 1 ≤ c.window_seconds
    → e.requests ≡ []
    → e.window_start ≡ 0
    → Ascending 0 ts
    → count (starts_at c start) (admitted (fixed_window_memory c) e ts) ≤ c.max_requests
fixed_window_memory-fits c e ts start w new zeroed h =
    let fits = admitted-fits c start 0 e ts w h (omega (arith, zeroed)) (rw new (omega arith)) in
    omega (arith, fits)
