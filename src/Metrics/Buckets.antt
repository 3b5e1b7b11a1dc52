-- ===== src/Metrics/Buckets.antt =====
-- The buckets of a histogram after an observation.
use route_mq.Prelude.{
  get_or, change, get_or-change, get_or-change_other, ℕ, suc, ◌+◌, ◌≡◌, refl, ap, ◌∙◌, inl, inr,
  true, false, List, [], ◌∷◌, arith, All, leb, ◌==◌, if◌then◌else◌, Bool-cases,
}
use route_mq.Metrics.{zero_buckets, raise_buckets}

eq_refl : (b : ℕ) → (b == b) ≡ true
eq_refl b = ground arith

eq_sound : (a b : ℕ) → (a == b) ≡ true → a ≡ b
eq_sound a b h = ground arith

abbrev pub bucket : ℕ → List (ℕ × ℕ) → ℕ
bucket = get_or ◌==◌ 0

-- No two of the bounds are equal.
abbrev pub AreDistinct : List ℕ → Type 0
AreDistinct [] = Unit
AreDistinct (b ∷ bs) = All (λ b'. (b == b') ≡ false) bs × AreDistinct bs

pub bucket-zero_buckets : (bs : List ℕ) (b : ℕ) → bucket b (zero_buckets bs) ≡ 0
bucket-zero_buckets [] b = refl
bucket-zero_buckets (b' ∷ bs) b = elim (Bool-cases (b == b')) [
  | inl same ↦
      let met : b ≡ b' = eq_sound b b' same in
      rw met (get_or-change ◌==◌ eq_refl 0 b' (λ n. 0) (zero_buckets bs))
  | inr other ↦
      get_or-change_other ◌==◌ eq_refl eq_sound 0 b' b (λ n. 0) (zero_buckets bs) other
      ∙ bucket-zero_buckets bs b
]

-- A bound that the loop does not meet.
bucket-raise_other :
    (value b : ℕ) (bs : List ℕ) (d : List (ℕ × ℕ))
    → All (λ b'. (b == b') ≡ false) bs
    → bucket b (raise_buckets value bs d) ≡ bucket b d
bucket-raise_other value b [] d h = refl
bucket-raise_other value b (b' ∷ bs) d h = elim (Bool-cases (leb value b')) [
  | inl within ↦ rw within (
      bucket-raise_other value b bs (change ◌==◌ 0 b' suc d) h.1
      ∙ get_or-change_other ◌==◌ eq_refl eq_sound 0 b' b suc d h.0)
  | inr above ↦ rw above (bucket-raise_other value b bs d h.1)
]

-- The buckets after the bound of one bucket has been met.
abbrev met : ℕ → ℕ → List (ℕ × ℕ) → List (ℕ × ℕ)
met value b d = if leb value b then change ◌==◌ 0 b suc d else d

abbrev pub within : ℕ → ℕ → ℕ
within value b = if leb value b then 1 else 0

bucket-met :
    (value b : ℕ) (d : List (ℕ × ℕ)) → bucket b (met value b d) ≡ bucket b d + within value b
bucket-met value b d = elim (Bool-cases (leb value b)) [
  | inl below ↦
      let raised = get_or-change ◌==◌ eq_refl 0 b suc d in rw below (omega (arith, raised))
  | inr above ↦ rw above (omega arith)
]

bucket-met_other :
    (value b b' : ℕ) (d : List (ℕ × ℕ))
    → (b == b') ≡ false
    → bucket b' (met value b d) ≡ bucket b' d
bucket-met_other value b b' d h = elim (Bool-cases (leb value b)) [
  | inl below ↦
      let apart : (b' == b) ≡ false = ground (arith, h) in
      rw below (get_or-change_other ◌==◌ eq_refl eq_sound 0 b b' suc d apart)
  | inr above ↦ rw above refl
]

pub All-both :
    {P Q R : ℕ → Type 0}
    → ((b : ℕ) → P b → Q b → R b)
    → (bs : List ℕ) → All P bs
    → All Q bs
    → All R bs
All-both f [] h k = tt
All-both f (b ∷ bs) h k = (f b h.0 k.0, All-both f bs h.1 k.1)

abbrev pub Raised : ℕ → List (ℕ × ℕ) → List (ℕ × ℕ) → ℕ → Type 0
Raised value old new b = bucket b new ≡ bucket b old + within value b

pub raise_buckets-Raised :
    (value : ℕ) (bs : List ℕ) (d : List (ℕ × ℕ))
    → AreDistinct bs
    → All (Raised value d (raise_buckets value bs d)) bs
raise_buckets-Raised value [] d h = tt
raise_buckets-Raised value (b ∷ bs) d h = (
  bucket-raise_other value b bs (met value b d) h.0 ∙ bucket-met value b d,
  All-both {R = Raised value d (raise_buckets value bs (met value b d))}
      (λ b' apart raised.
        raised ∙ ap (λ n. n + within value b') (bucket-met_other value b b' d apart))
      bs h.0 (raise_buckets-Raised value bs (met value b d) h.1),
)
