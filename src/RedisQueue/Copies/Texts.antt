-- ===== src/RedisQueue/Copies/Texts.antt =====
-- Lists of jobs, and how often an id stands in them.
use text.Mathlib.TextEquality.{eq_iff}
use route_mq.Prelude.{
  ℕ, ◌+◌, ◌≤◌, ◌≡◌, refl, ap, inl, inr, Bool, true, false, ◌||◌, Option, none, some, List, [], ◌∷◌,
  ◌++◌, arith, ◌==◌, if◌then◌else◌, Bool-cases,
}
use route_mq.Redis.{remove_first, last, init, without}
use route_mq.RedisQueue.{Entry, same_entry, same_time}

same_time_sound : (t u : Option ℕ) → same_time t u ≡ true → t ≡ u
same_time_sound none none h = refl
same_time_sound (some t) (some u) h = ground arith
same_time_sound none (some u) h = ground arith
same_time_sound (some t) none h = ground arith

pub same_entry_sound : (a b : Entry) → same_entry a b ≡ true → a ≡ b
same_entry_sound a b h =
    ground (arith, eq_iff a.payload b.payload, same_time_sound a.reserved_at b.reserved_at)

same_time_refl : (t : Option ℕ) → same_time t t ≡ true
same_time_refl none = refl
same_time_refl (some t) = ground arith

pub same_entry_refl : (a : Entry) → same_entry a a ≡ true
same_entry_refl a = ground (arith, eq_iff a.payload a.payload, same_time_refl a.reserved_at)

abbrev pub occurs : Entry → List (Entry × ℕ) → Bool
occurs x [] = false
occurs x ((y, t) ∷ ms) = same_entry x y || occurs x ms

module _ (i : ℕ) where
  abbrev pub weight : Entry → ℕ
  weight e = if e.id == i then 1 else 0

  -- How many of the jobs have the id.
  abbrev pub tally : List Entry → ℕ
  tally [] = 0
  tally (e ∷ es) = weight e + tally es

  abbrev pub tally_members : List (Entry × ℕ) → ℕ
  tally_members [] = 0
  tally_members ((e, t) ∷ ms) = weight e + tally_members ms

  pub tally-append : (xs ys : List Entry) → tally (xs ++ ys) ≡ tally xs + tally ys
  tally-append [] ys = omega arith
  tally-append (x ∷ xs) ys = omega (arith, tally-append xs ys)

  pub tally-init :
      (xs : List Entry) (x : Entry) → last xs ≡ some x → tally (init xs) + weight x ≡ tally xs
  tally-init [] x h = absurd (ground arith)
  tally-init (y ∷ []) x h = let same : y ≡ x = cc in rw same (omega arith)
  tally-init (y ∷ z ∷ zs) x h = omega (arith, tally-init (z ∷ zs) x h)

  same-weight : (x y : Entry) → same_entry x y ≡ true → weight x ≡ weight y
  same-weight x y h = ap weight (same_entry_sound x y h)

  pub tally-remove_first-le :
      (x : Entry) (xs : List Entry) → tally (remove_first same_entry x xs) ≤ tally xs
  tally-remove_first-le x [] = omega arith
  tally-remove_first-le x (y ∷ ys) = elim (Bool-cases (same_entry x y)) [
    | inl same ↦ rw same (omega arith)
    | inr other ↦ rw other (omega (arith, tally-remove_first-le x ys))
  ]

  pub tally-remove_first :
      (x : Entry) (before after : List Entry)
      → tally (remove_first same_entry x (before ++ x ∷ after)) + weight x
        ≡ tally (before ++ x ∷ after)
  tally-remove_first x [] after = rw (same_entry_refl x) (omega arith)
  tally-remove_first x (y ∷ ys) after = elim (Bool-cases (same_entry x y)) [
    | inl same ↦ let equal = same-weight x y same in rw same (omega (arith, equal))
    | inr other ↦ let rest = tally-remove_first x ys after in rw other (omega (arith, rest))
  ]

  pub tally-without-le :
      (x : Entry) (ms : List (Entry × ℕ))
      → tally_members (without same_entry x ms) ≤ tally_members ms
  tally-without-le x [] = omega arith
  tally-without-le x ((y, t) ∷ ms) = elim (Bool-cases (same_entry x y)) [
    | inl same ↦ rw same (omega (arith, tally-without-le x ms))
    | inr other ↦ rw other (omega (arith, tally-without-le x ms))
  ]

  pub tally_members-append :
      (ms ns : List (Entry × ℕ)) → tally_members (ms ++ ns) ≡ tally_members ms + tally_members ns
  tally_members-append [] ns = omega arith
  tally_members-append ((e, t) ∷ ms) ns = omega (arith, tally_members-append ms ns)

  pub tally-without :
      (x : Entry) (ms : List (Entry × ℕ))
      → occurs x ms ≡ true
      → tally_members (without same_entry x ms) + weight x ≤ tally_members ms
  tally-without x [] h = absurd (ground arith)
  tally-without x ((y, t) ∷ ms) h = elim (Bool-cases (same_entry x y)) [
    | inl same ↦
        let equal = same-weight x y same in rw same (omega (arith, equal, tally-without-le x ms))
    | inr other ↦
        let there : occurs x ms ≡ true = ground (arith, h, other) in
        rw other (omega (arith, tally-without x ms there))
  ]
