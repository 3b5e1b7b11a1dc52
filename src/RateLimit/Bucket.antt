-- ===== src/RateLimit/Bucket.antt =====
-- `_token_bucket_memory` of app/middleware/rate_limit.py.
use route_mq.Prelude.{
  ℕ, ◌+◌, ◌-◌, ◌*◌, ◌≤◌, ◌<◌, ◌≡◌, refl, ap, ◌∙◌, sym, inl, inr, Bool, false, some, List, [], ◌∷◌,
  ◌&&◌, ◌==◌, arith, ltb, leb, Bool-cases,
}
use native.Mathlib.Nat.{add-mul, mul-le-mul_right}
use route_mq.RateLimit.{
  Config, Entry, Tokens, Checked, window, capacity, started, refilled, take_token,
  token_bucket_memory,
}
use route_mq.RateLimit.Runs.{admitted, Ascending, count, count-late, counts, count-admitted}

-- The requests of an interval.
abbrev pub between : ℕ → ℕ → ℕ → Bool
between from to t = leb from t && leb t to

elapsed_split : (a b c m : ℕ) → a ≤ b → b ≤ c → (b - a) * m + (c - b) * m ≡ (c - a) * m
elapsed_split a b c m h k = sym (add-mul (b - a) (c - b) m) ∙ ap (λ n. n * m) (omega (arith, h, k))

add_cost :
    (x k w rest parts more : ℕ)
    → x * w + rest ≤ parts
    → k * w ≤ rest + more
    → (x + k) * w ≤ parts + more
add_cost x k w rest parts more h l = omega (arith, add-mul x k w, h, l)

-- A request that is allowed takes a token.
abbrev Takes : Config → (ℕ → Bool) → ℕ → Tokens → Checked → Type 0
Takes c p t bucket (v, e) =
    (rest : Tokens) × (e.tokens ≡ some rest)
    × (rest.last_refill ≡ bucket.last_refill)
    × (counts p v t * window c + rest.parts ≤ bucket.parts)

take_token-Takes :
    (c : Config) (p : ℕ → Bool) (e : Entry) (t : ℕ) (bucket : Tokens)
    → Takes c p t bucket (take_token c e bucket)
take_token-Takes c p e t bucket = elim (Bool-cases (ltb bucket.parts (window c))) [
  | inl few ↦ rw few (bucket, refl, refl, (ground arith))
  | inr enough ↦
      rw enough (record bucket { parts = bucket.parts - window c }, refl, refl, (ground arith))
]

module _ (c : Config) (from to : ℕ) (w : 1 ≤ c.window_seconds) where
  abbrev p : ℕ → Bool
  p = between from to

  abbrev step : Entry → ℕ → Checked
  step = token_bucket_memory c

  check-Takes : (e : Entry) (t : ℕ) → Takes c p t (refilled c t (started c t e.tokens)) (step e t)
  unfolding token_bucket_memory
  check-Takes e t =
      let some_window : (c.window_seconds == 0) ≡ false = ground arith in
      rw some_window (take_token-Takes c p e t (refilled c t (started c t e.tokens)))

  no_more :
      (e : Entry) (t : ℕ) (ts : List ℕ) → Ascending t ts → to < t → count p (admitted step e ts) ≡ 0
  no_more e t ts h late = count-late p step e t ts h (λ u k. ground arith)

  inflow :
      (u : ℕ) (e : Entry) (bucket : Tokens) (t : ℕ)
      → e.tokens ≡ some bucket
      → bucket.last_refill ≡ t
      → (refilled c u (started c u e.tokens)).parts ≤ bucket.parts + (u - t) * c.max_requests
  inflow u e bucket t here at = rw here (rw at (omega arith))

  spends :
      (e : Entry) (t : ℕ) (ts : List ℕ)
      → ((rest : Tokens)
          → (step e t).1.tokens ≡ some rest
          → rest.last_refill ≡ t
          → count p (admitted step (step e t).1 ts) * window c
            ≤ rest.parts + (to - t) * c.max_requests)
      → count p (admitted step e (t ∷ ts)) * window c
        ≤ (refilled c t (started c t e.tokens)).parts + (to - t) * c.max_requests
  spends e t ts later =
      let (rest, after, same, takes) = check-Takes e t in
      rw (count-admitted p step e t ts) (
        add_cost (counts p (step e t).0 t) (count p (admitted step (step e t).1 ts)) (window c)
          rest.parts _ ((to - t) * c.max_requests) takes (later rest after same))

  -- The tokens of a bucket and what flows in pay for the requests allowed.
  goes_on :
      (e : Entry) (t : ℕ) (bucket : Tokens) (ts : List ℕ)
      → e.tokens ≡ some bucket
      → bucket.last_refill ≡ t
      → Ascending t ts
      → t ≤ to
      → count p (admitted step e ts) * window c ≤ bucket.parts + (to - t) * c.max_requests
  goes_on e t bucket [] here at h le = omega arith
  goes_on e t bucket (u ∷ us) here at h le = elim (Bool-cases (ltb to u)) [
    | inl late ↦ rw (no_more e u (u ∷ us) (omega arith, h.1) (ground arith)) (omega arith)
    | inr in_time ↦
        let later =
          spends e u us
            (λ rest after same. goes_on (step e u).1 u rest us after same h.1 (ground arith)) in
        let parts = inflow u e bucket t here at in
        let split = elapsed_split t u to c.max_requests h.0 (ground arith) in
        omega (arith, later, parts, split)
  ]

  full : (t : ℕ) (bucket : Tokens) → (refilled c t bucket).parts ≤ capacity c
  full t bucket = omega arith

  flows :
      (now : ℕ) (e : Entry) (ts : List ℕ)
      → Ascending now ts
      → from ≤ to
      → count p (admitted step e ts) * window c ≤ capacity c + (to - from) * c.max_requests
  flows now e [] h le = omega arith
  flows now e (t ∷ ts) h le = elim (Bool-cases (ltb to t)) [
    | inl late ↦ rw (no_more e t (t ∷ ts) (omega arith, h.1) (ground arith)) (omega arith)
    | inr in_time ↦ elim (Bool-cases (ltb t from)) [
      | inl early ↦
          rw (count-admitted p step e t ts)
            (let rest = flows t (step e t).1 ts h.1 le in ground (arith, rest))
      | inr counted ↦
          let shorter : to - t ≤ to - from = ground arith in
          let slower = mul-le-mul_right c.max_requests shorter in
          let paid =
            spends e t ts
              (λ rest after same. goes_on (step e t).1 t rest ts after same h.1 (ground arith)) in
          let cap = full t (started c t e.tokens) in omega (arith, slower, paid, cap)
    ]
  ]

-- In an interval of any length, the requests that are allowed cost at most a full bucket and what
-- flows in meanwhile, from any state of the entry and for any times of requests that do not go
-- back, where the window is not empty.
pub token_bucket_memory-flows :
    (c : Config) (e : Entry) (ts : List ℕ) (from to : ℕ)
    → 1 ≤ c.window_seconds
    → Ascending 0 ts
    → from ≤ to
    → count (between from to) (admitted (token_bucket_memory c) e ts) * window c
      ≤ (c.max_requests + c.burst_allowance) * window c + (to - from) * c.max_requests
token_bucket_memory-flows c e ts from to w h le = flows c from to w 0 e ts h le
