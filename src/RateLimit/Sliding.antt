-- ===== src/RateLimit/Sliding.antt =====
-- `_sliding_window_memory` of app/middleware/rate_limit.py.
use route_mq.Prelude.{
  ℕ, ◌+◌, ◌≤◌, ◌≡◌, refl, inl, inr, Bool, false, Option, none, some, List, [], ◌∷◌, ◌&&◌, arith,
  ltb, leb, length, Bool-cases,
}
use route_mq.RateLimit.{Config, Entry, window, recent, oldest, refuse_until, sliding_window_memory}
use route_mq.RateLimit.Runs.{
  passes, admitted, Ascending, count, count_le_length, count-append, count-late, counts,
  count-admitted,
}

-- The requests of the window that ends at a time.
abbrev pub in_window : Config → ℕ → ℕ → Bool
in_window c at t = leb t at && ltb at (t + window c)

refuse_until-refuses : (c : Config) (now : ℕ) (o : Option ℕ) → passes (refuse_until c now o) ≡ false
refuse_until-refuses c now none = refl
refuse_until-refuses c now (some t) = refl

count-recent :
    (c : Config) (at now : ℕ) (ts : List ℕ)
    → now ≤ at
    → count (in_window c at) (recent c now ts) ≡ count (in_window c at) ts
count-recent c at now [] h = refl
count-recent c at now (t ∷ ts) h = ground (arith, count-recent c at now ts h)

-- A check moves its request to the ones that are kept, and these fit.
check-fits :
    (c : Config) (at : ℕ) (e : Entry) (t : ℕ)
    → t ≤ at
    → count (in_window c at) e.requests ≤ c.max_requests
    → (count (in_window c at) e.requests + counts (in_window c at) (sliding_window_memory c e t).0 t
        ≡ count (in_window c at) (sliding_window_memory c e t).1.requests)
      × (count (in_window c at) (sliding_window_memory c e t).1.requests ≤ c.max_requests)
unfolding sliding_window_memory
check-fits c at e t h k =
    let kept = count-recent c at t e.requests h in
    elim (Bool-cases (leb c.max_requests (length (recent c t e.requests)))) [
      | inl full ↦ rw full (
          rw (refuse_until-refuses c t (oldest (recent c t e.requests)))
            (omega (arith, kept), omega (arith, kept, k)))
      | inr free ↦
          let append = count-append (in_window c at) (recent c t e.requests) (t ∷ []) in
          let bound = count_le_length (in_window c at) (recent c t e.requests) in
          rw free (ground (arith, kept, append), ground (arith, append, bound))
    ]

admitted-fits :
    (c : Config) (at now : ℕ) (e : Entry) (ts : List ℕ)
    → Ascending now ts
    → count (in_window c at) e.requests ≤ c.max_requests
    → count (in_window c at) e.requests
        + count (in_window c at) (admitted (sliding_window_memory c) e ts)
      ≤ c.max_requests
admitted-fits c at now e [] h k = omega (arith, k)
admitted-fits c at now e (t ∷ ts) h k =
    let p = in_window c at in
    let step = sliding_window_memory c in
    elim (Bool-cases (ltb at t)) [
      | inl early ↦
          let late = count-late p step e t (t ∷ ts) (omega arith, h.1) (λ u k. ground arith) in
          omega (arith, late, k)
      | inr late ↦
          let here = check-fits c at e t (ground arith) k in
          let rest = admitted-fits c at t (step e t).1 ts h.1 here.1 in
          omega (arith, count-admitted p step e t ts, here, rest)
    ]

-- At every time, at most `max_requests` of the requests that were allowed are younger than the
-- window, for a new entry and any times of requests that do not go back.
pub sliding_window_memory-fits :
    (c : Config) (e : Entry) (ts : List ℕ) (at : ℕ)
    → e.requests ≡ []
    → Ascending 0 ts
    → count (in_window c at) (admitted (sliding_window_memory c) e ts) ≤ c.max_requests
sliding_window_memory-fits c e ts at new h =
    let fits = admitted-fits c at 0 e ts h (rw new (omega arith)) in omega (arith, fits)
