-- ===== src/Prelude/Dicts.antt =====
-- The dicts of Python, and what a change of one key does to the others.
use mathlib.Core.Path.{◌≡◌, refl, sym, ap, ◌∙◌}
use mathlib.Core.Logic.{inl, inr}
use mathlib.Core.Bool.{Bool, true, false}
use mathlib.Core.List.{List, [], ◌∷◌}
use route_mq.Prelude.Tests.{if◌then◌else◌, Bool-cases}

-- A dict, in the order in which its keys came.
module _ {K V : Type 0} (same : K → K → Bool) where
  -- `d.get(key, default)`
  abbrev pub get_or : V → K → List (K × V) → V
  get_or default key [] = default
  get_or default key ((k, v) ∷ d) = if same key k then v else get_or default key d

  -- `d[key] = f(d.get(key, default))`
  abbrev pub change : V → K → (V → V) → List (K × V) → List (K × V)
  change default key f [] = (key, f default) ∷ []
  change default key f ((k, v) ∷ d) =
      if same key k then (k, f v) ∷ d else (k, v) ∷ change default key f d

module _ {K V : Type 0} (same : K → K → Bool) (same_refl : (k : K) → same k k ≡ true) where
  pub get_or-change :
      (default : V) (key : K) (f : V → V) (d : List (K × V))
      → get_or same default key (change same default key f d) ≡ f (get_or same default key d)
  get_or-change default key f [] = rw (same_refl key) refl
  get_or-change default key f ((k, v) ∷ d) = elim (Bool-cases (same key k)) [
    | inl here ↦ rw here (rw here refl)
    | inr other ↦ rw other (rw other (get_or-change default key f d))
  ]

  -- The other keys keep their values.
  pub get_or-change_other :
      (sound : (j k : K) → same j k ≡ true → j ≡ k)
      → (default : V) (key key' : K) (f : V → V) (d : List (K × V)) → same key' key ≡ false
      → get_or same default key' (change same default key f d) ≡ get_or same default key' d
  get_or-change_other sound default key key' f [] h = rw h refl
  get_or-change_other sound default key key' f ((k, v) ∷ d) h = elim (Bool-cases (same key k)) [
    | inl here ↦
        let apart : same key' k ≡ false = ap (λ x. same key' x) (sym (sound key k here)) ∙ h in
        rw here (rw apart refl)
    | inr other ↦ rw other (elim (Bool-cases (same key' k)) [
      | inl found ↦ rw found refl
      | inr passed ↦ rw passed (get_or-change_other sound default key key' f d h)
    ])
  ]
