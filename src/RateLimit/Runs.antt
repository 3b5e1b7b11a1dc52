-- ===== src/RateLimit/Runs.antt =====
-- Requests for one key, one after another, through a strategy of app/middleware/rate_limit.py.
use route_mq.Prelude.{
  ℕ, ◌+◌, ◌≤◌, ◌≡◌, refl, inl, inr, Bool, false, Option, none, some, List, [], ◌∷◌, ◌++◌, arith,
  length, select, All, All-imp, if◌then◌else◌, Bool-cases,
}
use route_mq.RateLimit.{Entry, Verdict, Checked}

abbrev pub passes : Option Verdict → Bool
passes none = false
passes (some v) = v.allowed

-- The times of the requests that are allowed.
abbrev pub admitted : (Entry → ℕ → Checked) → Entry → List ℕ → List ℕ
admitted step e [] = []
admitted step e (t ∷ ts) =
    let (v, e') = step e t in let rest = admitted step e' ts in if passes v then t ∷ rest else rest

-- The clock does not go back.
abbrev pub Ascending : ℕ → List ℕ → Type 0
Ascending now [] = Unit
Ascending now (t ∷ ts) = (now ≤ t) × Ascending t ts

abbrev pub count : (ℕ → Bool) → List ℕ → ℕ
count p ts = length (select p ts)

pub Ascending-All : (now : ℕ) (ts : List ℕ) → Ascending now ts → All (λ t. now ≤ t) ts
Ascending-All now [] h = tt
Ascending-All now (t ∷ ts) h = (h.0, All-imp (λ u k. omega arith) ts (Ascending-All t ts h.1))

pub admitted-All {κ} :
    (P : ℕ → Type κ) (step : Entry → ℕ → Checked) (e : Entry) (ts : List ℕ)
    → All P ts
    → All P (admitted step e ts)
admitted-All P step e [] h = tt
admitted-All P step e (t ∷ ts) h = elim (Bool-cases (passes (step e t).0)) [
  | inl eq ↦ rw eq (h.0, admitted-All P step (step e t).1 ts h.1)
  | inr eq ↦ rw eq (admitted-All P step (step e t).1 ts h.1)
]

pub count_none : (p : ℕ → Bool) (ts : List ℕ) → All (λ t. p t ≡ false) ts → count p ts ≡ 0
count_none p [] h = refl
count_none p (t ∷ ts) h = rw h.0 (count_none p ts h.1)

pub count_le_length : (p : ℕ → Bool) (ts : List ℕ) → count p ts ≤ length ts
count_le_length p [] = omega arith
count_le_length p (t ∷ ts) = ground (arith, count_le_length p ts)

pub count-append : (p : ℕ → Bool) (ts us : List ℕ) → count p (ts ++ us) ≡ count p ts + count p us
count-append p [] us = omega arith
count-append p (t ∷ ts) us = ground (arith, count-append p ts us)

-- Requests that come too late for a test are not counted.
pub count-late :
    (p : ℕ → Bool) (step : Entry → ℕ → Checked) (e : Entry) (t : ℕ) (ts : List ℕ)
    → Ascending t ts
    → ((u : ℕ) → t ≤ u → p u ≡ false)
    → count p (admitted step e ts) ≡ 0
count-late p step e t ts h late =
    count_none p (admitted step e ts)
      (admitted-All (λ u. p u ≡ false) step e ts (All-imp late ts (Ascending-All t ts h)))

-- What one verdict adds to the requests counted.
abbrev pub counts : (ℕ → Bool) → Option Verdict → ℕ → ℕ
counts p v t = if passes v then (if p t then 1 else 0) else 0

pub count-admitted :
    (p : ℕ → Bool) (step : Entry → ℕ → Checked) (e : Entry) (t : ℕ) (ts : List ℕ)
    → count p (admitted step e (t ∷ ts))
      ≡ counts p (step e t).0 t + count p (admitted step (step e t).1 ts)
count-admitted p step e t ts = elim (Bool-cases (passes (step e t).0)) [
  | inl eq ↦ rw eq (ground arith)
  | inr eq ↦ rw eq (omega arith)
]
