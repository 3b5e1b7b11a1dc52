-- ===== src/Telemetry/Accounts.antt =====
-- Every point of a batch is written or reported, where the adapter's own reports are right.
use route_mq.Prelude.{
  ℕ, zero, suc, ◌+◌, ◌≡◌, refl, ap, Bool, true, false, some, List, [], ◌∷◌, ◌++◌, subst,
  append_assoc, arith, length, length-append, All, All-append,
}
use route_mq.Text.{String}
use route_mq.Telemetry.{
  WriteFailure, WriteResult, Answer, wrote, raised, enumerate, points_of, Adapter,
}
use route_mq.Telemetry.Writing.{
  give_up, next_pending, final_failures, result, write_pending, write_with_retries,
}
use route_mq.Telemetry.Places.{
  get_elem?, get_elem?-append, IsAt, Fits, IsAccounted, IsPlaced, length-split, next_pending-last,
  final_failures-IsAt, next_pending-IsPlaced, length-give_up, give_up-IsAt, length-points_of,
}

module _ {P : Type 0} (A : Adapter P) (points : List P) where
  module _ (honest : (ps : List P) (w : A.World) → Fits ps (A.write_many ps w).0) where
    -- What is known between two attempts.
    record Kept (pending : List (ℕ × P)) (failures : List (WriteFailure P)) (written : ℕ)
        : Type 0 where
      placed : All (IsPlaced points) pending
      named : All (IsAt points) failures
      counted : written + length failures + length pending ≡ length points

    Kept-raised :
        (pending : List (ℕ × P)) (failures : List (WriteFailure P)) (written : ℕ) (error : String)
        → Kept pending failures written
        → IsAccounted points
            (result A (length points) written (failures ++ give_up A error pending))
    Kept-raised pending failures written error k = record {
      accepted = refl;
      counted =
          let both = length-append failures (give_up A error pending) in
          omega (arith, k.counted, both, length-give_up A points error pending);
      named =
          All-append (IsAt points) failures (give_up A error pending) k.named
            (give_up-IsAt A points error pending k.placed);
    }

    Kept-wrote :
        (more : Bool) (pending : List (ℕ × P)) (failures : List (WriteFailure P)) (written : ℕ)
        → (r : WriteResult P) → Fits (points_of P pending) (wrote r)
        → Kept pending failures written
        → Kept
            (next_pending A more pending r.failures)
            (failures ++ final_failures A more pending r.failures)
            (written + r.written)
    Kept-wrote more pending failures written r fits k = record {
      placed = next_pending-IsPlaced A points more pending r.failures k.placed fits.1;
      named =
          All-append (IsAt points) failures (final_failures A more pending r.failures) k.named
            (final_failures-IsAt A points more pending r.failures k.placed fits.1);
      counted =
          let both = length-append failures (final_failures A more pending r.failures) in
          let split = length-split A points more pending r.failures in
          omega (arith, k.counted, both, split, fits.0, length-points_of A points pending);
    }

    Kept-nil :
        (failures : List (WriteFailure P)) (written : ℕ)
        → Kept [] failures written
        → IsAccounted points (result A (length points) written failures)
    Kept-nil failures written k = record {
      accepted = refl;
      counted = omega (arith, k.counted);
      named = k.named;
    }

    Kept-eq :
        {qs qs' : List (ℕ × P)} {failures : List (WriteFailure P)} {written : ℕ}
        → qs ≡ qs'
        → Kept qs failures written
        → Kept qs' failures written
    Kept-eq {qs} {qs'} {failures} {written} e k = subst (λ qs. Kept qs failures written) e k

    -- The results of the attempts from some one on.
    abbrev Rest : ℕ → Type 0
    Rest left =
        (pending : List (ℕ × P)) (failures : List (WriteFailure P)) (written : ℕ) (w : A.World)
        → Kept pending failures written
        → IsAccounted points (write_pending A left (length points) pending failures written w).0

    last-attempt : Rest zero
    unfolding write_pending
    last-attempt pending failures written w k = answered _ refl (honest (points_of P pending) w)
      where
        answered :
            (a : Answer P)
            → (A.write_many (points_of P pending) w).0 ≡ a
            → Fits (points_of P pending) (A.write_many (points_of P pending) w).0
            → IsAccounted points (write_pending A zero (length points) pending failures written w).0
        answered (raised error) e fits =
            rw (e, write_pending) (Kept-raised pending failures written error k)
        answered (wrote r) e fits =
            let fits_r = subst (Fits (points_of P pending)) e fits in
            let after = Kept-wrote false pending failures written r fits_r k in
            let none_left = next_pending-last A points pending r.failures in
            rw (e, write_pending) (Kept-nil _ _ (Kept-eq none_left after))

    next-attempt : (left : ℕ) → Rest left → Rest (suc left)
    unfolding write_pending
    next-attempt left rest pending failures written w k =
        answered _ refl (honest (points_of P pending) w)
      where
        answered :
            (a : Answer P)
            → (A.write_many (points_of P pending) w).0 ≡ a
            → Fits (points_of P pending) (A.write_many (points_of P pending) w).0
            → IsAccounted points
                (write_pending A (suc left) (length points) pending failures written w).0
        answered (raised error) e fits = rw (e, write_pending) (rest pending failures written _ k)
        answered (wrote r) e fits = again _ refl
          where
            after :
                Kept
                  (next_pending A true pending r.failures)
                  (failures ++ final_failures A true pending r.failures)
                  (written + r.written)
            after =
                Kept-wrote true pending failures written r
                  (subst (Fits (points_of P pending)) e fits) k

            again :
                (qs : List (ℕ × P))
                → next_pending A true pending r.failures ≡ qs
                → IsAccounted points
                    (write_pending A (suc left) (length points) pending failures written w).0
            again [] none_left =
                rw (e, write_pending)
                  (rw (none_left, write_pending) (Kept-nil _ _ (Kept-eq none_left after)))
            again (q ∷ qs) some_left =
                rw (e, write_pending)
                  (rw (some_left, write_pending) (rest (q ∷ qs) _ _ _ (Kept-eq some_left after)))

    write_pending-IsAccounted : (left : ℕ) → Rest left
    write_pending-IsAccounted zero = last-attempt
    write_pending-IsAccounted (suc left) = next-attempt left (write_pending-IsAccounted left)

enumerate-IsPlaced :
    {P : Type 0} (n : ℕ) (before after : List P)
    → length before ≡ n
    → All (λ (i, p). get_elem? (before ++ after) i ≡ some p) (enumerate P n after)
enumerate-IsPlaced n before [] h = tt
enumerate-IsPlaced {P} n before (p ∷ ps) h = (
  subst (λ i. get_elem? (before ++ p ∷ ps) i ≡ some p) h (get_elem?-append before ps p),
  subst (λ all. All (λ (i, q). get_elem? all i ≡ some q) (enumerate P (n + 1) ps))
      (append_assoc before (p ∷ []) ps)
      (enumerate-IsPlaced (n + 1) (before ++ p ∷ []) ps
        (omega (arith, h, length-append before (p ∷ [])))),
)

length-enumerate : {P : Type 0} (n : ℕ) (ps : List P) → length (enumerate P n ps) ≡ length ps
length-enumerate n [] = refl
length-enumerate n (p ∷ ps) = ap suc (length-enumerate (n + 1) ps)

-- Where the adapter's answers count each point once and name failed ones by their place, so does the
-- result for the batch, whatever number of retries there are: written and failed points add up to
-- the batch, and each failure has the index and the point that it had in the batch.
pub write_with_retries-IsAccounted :
    {P : Type 0} (A : Adapter P)
    → ((ps : List P) (w : A.World) → Fits ps (A.write_many ps w).0)
    → (max_retries : ℕ) (points : List P) (w : A.World)
    → IsAccounted points (write_with_retries A max_retries points w).0
write_with_retries-IsAccounted {P} A honest max_retries points w =
    write_pending-IsAccounted A points honest max_retries (enumerate P 0 points) [] 0 w (record {
      placed = enumerate-IsPlaced 0 [] points refl;
      named = tt;
      counted = omega (arith, length-enumerate 0 points);
    })
