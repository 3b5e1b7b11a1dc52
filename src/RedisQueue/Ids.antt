-- ===== src/RedisQueue/Ids.antt =====
-- The ids of failed jobs, f'failed:{queue}:{int(time.time() * 1000000)}', and
-- `_failed_job_queue_from_id`. A text is a list of code points.
use route_mq.Prelude.{
  ℕ, zero, suc, ◌≡◌, ◌≢◌, ◌↔◌, refl, sym, ap, ◌∙◌, inl, inr, Bool, true, false, not, ◌&&◌, Option,
  none, some, List, [], ◌∷◌, ◌++◌, append_assoc, arith, length, length-append, ◌==◌, if◌then◌else◌,
  Bool-cases,
}
use route_mq.Text.{codes}

abbrev Chars : Type 0
Chars = List ℕ

abbrev pub failed_id : Chars → Chars → Chars
failed_id queue digits = codes "failed" ++ b':' ∷ (queue ++ b':' ∷ digits)

abbrev before_char : ℕ → Option (Chars × Chars) → Option (Chars × Chars)
before_char c none = none
before_char c (some (a, b)) = some (c ∷ a, b)

-- The text before the first colon, and the text after it.
unfoldable pub cut : Chars → Option (Chars × Chars)
cut [] = none
cut (c ∷ cs) = let rest = cut cs in if c == b':' then some ([], cs) else before_char c rest

-- `text.split(':', limit)`
unfoldable pub split : ℕ → Chars → List Chars
unfolding cut
split zero text = text ∷ []
split (suc limit) text = elim (cut text) [
  | none ↦ text ∷ []
  | some (part, rest) ↦ part ∷ split limit rest
]

abbrev same_chars : Chars → Chars → Bool
same_chars [] [] = true
same_chars (c ∷ cs) (d ∷ ds) = c == d && same_chars cs ds
same_chars _ _ = false

abbrev is_empty : Chars → Bool
is_empty [] = true
is_empty (c ∷ cs) = false

abbrev queue_of_parts : List Chars → Option Chars
queue_of_parts (start ∷ queue ∷ rest ∷ []) =
    if same_chars start (codes "failed") && not (is_empty queue) then some queue else none
queue_of_parts _ = none

-- `_failed_job_queue_from_id`
unfoldable pub failed_job_queue_from_id : Chars → Option Chars
unfolding split
failed_job_queue_from_id id = queue_of_parts (split 2 id)

abbrev pub has_colon : Chars → Bool
has_colon [] = false
has_colon (c ∷ cs) = if c == b':' then true else has_colon cs

cut-append : (a b : Chars) → has_colon a ≡ false → cut (a ++ b':' ∷ b) ≡ some (a, b)
unfolding cut
cut-append [] b h = refl
cut-append (c ∷ cs) b h = elim (Bool-cases (c == b':')) [
  | inl colon ↦ absurd (ground (arith, h, colon))
  | inr other ↦
      let rest_free : has_colon cs ≡ false = ground (arith, h, other) in
      rw other (rw (cut-append cs b rest_free) refl)
]

-- A text has no colon, or it is cut at the first one.
colon-cases :
    (q : Chars)
    → has_colon q ≡ true
    → (a : Chars) × (b : Chars) × (q ≡ a ++ b':' ∷ b) × (has_colon a ≡ false)
colon-cases [] h = absurd (ground arith)
colon-cases (c ∷ cs) h = elim (Bool-cases (c == b':')) [
  | inl colon ↦ ([], cs, (let same : c ≡ b':' = ground arith in rw same refl), refl)
  | inr other ↦
      let more : has_colon cs ≡ true = ground (arith, h, other) in
      let (a, b, cut_here, free) = colon-cases cs more in
      (c ∷ a, b, ap (◌∷◌ c) cut_here, ground (arith, other, free))
]

split-append :
    (limit : ℕ) (a b : Chars)
    → has_colon a ≡ false
    → split (suc limit) (a ++ b':' ∷ b) ≡ a ∷ split limit b
unfolding split
split-append limit a b h = rw (cut-append a b h, split) refl

split-failed_id :
    (q d : Chars) → has_colon q ≡ false → split 2 (failed_id q d) ≡ codes "failed" ∷ q ∷ d ∷ []
unfolding split
split-failed_id q d h =
    split-append 1 (codes "failed") (q ++ b':' ∷ d) refl
    ∙ ap (◌∷◌ (codes "failed")) (split-append 0 q d h)

from_free_queue :
    (q d : Chars)
    → has_colon q ≡ false
    → failed_job_queue_from_id (failed_id q d) ≡ (if not (is_empty q) then some q else none)
unfolding failed_job_queue_from_id
from_free_queue q d h = ap queue_of_parts (split-failed_id q d h)

-- What is read is the queue's name up to its first colon.
from_cut_queue :
    (a b d : Chars)
    → has_colon a ≡ false
    → failed_job_queue_from_id (failed_id (a ++ b':' ∷ b) d)
      ≡ (if not (is_empty a) then some a else none)
from_cut_queue a b d h =
    ap (λ text. failed_job_queue_from_id (codes "failed" ++ b':' ∷ text))
      (append_assoc a (b':' ∷ b) (b':' ∷ d))
    ∙ from_free_queue a (b ++ b':' ∷ d) h

none_of_other : (a q : Chars) → a ≢ q → (if not (is_empty a) then some a else none) ≢ some q
none_of_other [] q h e = absurd (ground arith)
none_of_other (c ∷ cs) q h e = h (ground arith)

some_if_filled : (q : Chars) → q ≢ [] → (if not (is_empty q) then some q else none) ≡ some q
some_if_filled [] h = absurd (h refl)
some_if_filled (c ∷ cs) h = refl

filled_if_some : (q : Chars) → (if not (is_empty q) then some q else none) ≡ some q → q ≢ []
filled_if_some [] h nil = absurd (ground arith)
filled_if_some (c ∷ cs) h nil = absurd (ground arith)

cut_differs : (a b : Chars) → a ≢ a ++ b':' ∷ b
cut_differs a b e =
    let same = ap length e in absurd (omega (arith, same, length-append a (b':' ∷ b)))

-- The queue is read back from the id of a failed job just if its name has no colon and is not empty.
pub failed_job_queue_from_id-failed_id :
    (q d : Chars)
    → (failed_job_queue_from_id (failed_id q d) ≡ some q) ↔ ((q ≢ []) × (has_colon q ≡ false))
failed_job_queue_from_id-failed_id q d = elim (Bool-cases (has_colon q)) [
  | inl colon ↦
      let (a, b, cut_here, free) = colon-cases q colon in
      let wrong : failed_job_queue_from_id (failed_id q d) ≢ some q =
        rw cut_here
          (rw (from_cut_queue a b d free) (none_of_other a (a ++ b':' ∷ b) (cut_differs a b))) in
      (λ e. absurd (wrong e), λ (filled, free). ground arith)
  | inr free ↦ (
    λ e. (filled_if_some q (sym (from_free_queue q d free) ∙ e), free),
    λ (filled, f). from_free_queue q d free ∙ some_if_filled q filled,
  )
]
