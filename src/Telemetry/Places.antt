-- ===== src/Telemetry/Places.antt =====
-- The places of the points of a batch among those that are written again.
use route_mq.Prelude.{
  ℕ, zero, suc, ◌+◌, ◌≡◌, refl, ap, ◌∙◌, inl, inr, Bool, false, ◌&&◌, Option, none, some, List, [],
  ◌∷◌, ◌++◌, arith, length, All, Bool-cases,
}
use route_mq.Text.{String}
use route_mq.Telemetry.{
  WriteFailure, WriteResult, Answer, wrote, raised, points_of, place_or, Adapter,
}
use route_mq.Telemetry.Writing.{give_up, mapped_failure, next_pending, final_failures}

abbrev pub get_elem? : {A : Type 0} → List A → ℕ → Option A
get_elem? [] i = none
get_elem? (x ∷ xs) zero = some x
get_elem? (x ∷ xs) (suc i) = get_elem? xs i

pub get_elem?-append :
    {A : Type 0} (xs ys : List A) (y : A) → get_elem? (xs ++ y ∷ ys) (length xs) ≡ some y
get_elem?-append [] ys y = refl
get_elem?-append (x ∷ xs) ys y = get_elem?-append xs ys y

module _ {P : Type 0} where
  abbrev pub IsAt : List P → WriteFailure P → Type 0
  IsAt points f = get_elem? points f.index ≡ some f.point

  -- An answer of the adapter that counts each point once and names each failed one by its place.
  abbrev pub Fits : List P → Answer P → Type 0
  Fits points (raised error) = Unit
  Fits points (wrote r) =
      (r.written + length r.failures ≡ length points) × All (IsAt points) r.failures

  -- The same for a result.
  pub record IsAccounted (points : List P) (r : WriteResult P) : Type 0 where
    pub accepted : r.accepted ≡ length points
    pub counted : r.written + length r.failures ≡ length points
    pub named : All (IsAt points) r.failures

  abbrev pub IsPlaced : List P → ℕ × P → Type 0
  IsPlaced points (i, p) = get_elem? points i ≡ some p

module _ {P : Type 0} (A : Adapter P) (points : List P) where
  pub length-split :
      (more : Bool) (pending : List (ℕ × P)) (fs : List (WriteFailure P))
      → length (next_pending A more pending fs) + length (final_failures A more pending fs)
        ≡ length fs
  length-split more pending [] = omega arith
  length-split more pending (f ∷ fs) =
      let rest = length-split more pending fs in
      elim (Bool-cases (f.retriable && more)) [
        | inl again ↦ rw again (omega (arith, rest))
        | inr final ↦ rw final (omega (arith, rest))
      ]

  pub next_pending-last :
      (pending : List (ℕ × P)) (fs : List (WriteFailure P)) → next_pending A false pending fs ≡ []
  next_pending-last pending [] = refl
  next_pending-last pending (f ∷ fs) = elim (Bool-cases (f.retriable && false)) [
    | inl again ↦ absurd (ground arith)
    | inr final ↦ rw final (next_pending-last pending fs)
  ]

  -- The original of a failure is the point at its place among the pending ones.
  pub mapped_failure-IsAt :
      (pending : List (ℕ × P)) (f : WriteFailure P)
      → All (IsPlaced points) pending
      → IsAt (points_of P pending) f
      → IsAt points (mapped_failure A pending f)
  mapped_failure-IsAt pending f placed here = found pending f.index placed here
    where
      found :
          (qs : List (ℕ × P)) (i : ℕ)
          → All (IsPlaced points) qs
          → get_elem? (points_of P qs) i ≡ some f.point
          → get_elem? points (place_or P (f.index, f.point) qs i).0 ≡ some f.point
      found [] i h k = absurd (ground arith)
      found (q ∷ qs) zero h k = h.0 ∙ k
      found (q ∷ qs) (suc i) h k = found qs i h.1 k

  pub final_failures-IsAt :
      (more : Bool) (pending : List (ℕ × P)) (fs : List (WriteFailure P))
      → All (IsPlaced points) pending
      → All (IsAt (points_of P pending)) fs
      → All (IsAt points) (final_failures A more pending fs)
  final_failures-IsAt more pending [] placed h = tt
  final_failures-IsAt more pending (f ∷ fs) placed h =
      let rest = final_failures-IsAt more pending fs placed h.1 in
      elim (Bool-cases (f.retriable && more)) [
        | inl again ↦ rw again rest
        | inr final ↦ rw final (mapped_failure-IsAt pending f placed h.0, rest)
      ]

  pub next_pending-IsPlaced :
      (more : Bool) (pending : List (ℕ × P)) (fs : List (WriteFailure P))
      → All (IsPlaced points) pending
      → All (IsAt (points_of P pending)) fs
      → All (IsPlaced points) (next_pending A more pending fs)
  next_pending-IsPlaced more pending [] placed h = tt
  next_pending-IsPlaced more pending (f ∷ fs) placed h =
      let rest = next_pending-IsPlaced more pending fs placed h.1 in
      elim (Bool-cases (f.retriable && more)) [
        | inl again ↦ rw again (mapped_failure-IsAt pending f placed h.0, rest)
        | inr final ↦ rw final rest
      ]

  pub length-give_up :
      (error : String) (pending : List (ℕ × P)) → length (give_up A error pending) ≡ length pending
  length-give_up error [] = refl
  length-give_up error (q ∷ qs) = ap suc (length-give_up error qs)

  pub give_up-IsAt :
      (error : String) (pending : List (ℕ × P))
      → All (IsPlaced points) pending
      → All (IsAt points) (give_up A error pending)
  give_up-IsAt error [] h = tt
  give_up-IsAt error (q ∷ qs) h = (h.0, give_up-IsAt error qs h.1)

  pub length-points_of : (pending : List (ℕ × P)) → length (points_of P pending) ≡ length pending
  length-points_of [] = refl
  length-points_of (q ∷ qs) = ap suc (length-points_of qs)
