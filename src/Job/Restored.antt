-- ===== src/Job/Restored.antt =====
-- What a job keeps through its payload, and which classes are loaded.
use text.Mathlib.Text.{◌==◌ as str_eq}
use text.Mathlib.TextEquality.{eq_iff}
use route_mq.Prelude.{
  ◌≡◌, refl, sym, ap, subst, ◌∙◌, inl, inr, true, false, not, ◌&&◌, ◌||◌, List, [], ◌∷◌, arith, All,
  All-select, get_or, Bool-cases,
}
use route_mq.Text.{String}
use route_mq.Job.Payload.{Classes, is_private, is_left_out, setattr, get_data, restore_data}

str_eq_refl : (s : String) → str_eq s s ≡ true
str_eq_refl s = ground (arith, eq_iff s s)

module _ (C : Classes) where
  open C use {V, attribute, construct}

  pub getattr-setattr :
      (default : V) (name : String) (v : V) (d : List (String × V))
      → get_or str_eq default name (setattr C name v d) ≡ v
  getattr-setattr default name v [] = rw (str_eq_refl name) refl
  getattr-setattr default name v ((k, u) ∷ d) = elim (Bool-cases (str_eq name k)) [
    | inl here ↦ rw here (rw here refl)
    | inr other ↦ rw other (rw other (getattr-setattr default name v d))
  ]

  pub getattr-setattr_other :
      (default : V) (name other : String) (v : V) (d : List (String × V))
      → str_eq name other ≡ false
      → get_or str_eq default name (setattr C other v d) ≡ get_or str_eq default name d
  getattr-setattr_other default name other v [] h = rw h refl
  getattr-setattr_other default name other v ((k, u) ∷ d) h = elim (Bool-cases (str_eq other k)) [
    | inl here ↦
        let met : other ≡ k = ground (arith, eq_iff other k) in
        let apart : str_eq name k ≡ false = ap (λ x. str_eq name x) (sym met) ∙ h in
        rw here (rw apart refl)
    | inr passed ↦ rw passed (elim (Bool-cases (str_eq name k)) [
      | inl found ↦ rw found refl
      | inr on ↦ rw on (getattr-setattr_other default name other v d h)
    ])
  ]

  -- No two keys of a dict are equal.
  abbrev pub HasDistinctKeys : List (String × V) → Type 0
  HasDistinctKeys [] = Unit
  HasDistinctKeys ((k, v) ∷ d) = All (λ (k', u). str_eq k k' ≡ false) d × HasDistinctKeys d

  abbrev pub IsData : String × V → Type 0
  IsData (k, v) = (is_private k ≡ false) × (is_left_out k ≡ false)

  pub get_data-IsData : (d : List (String × V)) → All IsData (get_data C d)
  get_data-IsData [] = tt
  get_data-IsData ((k, v) ∷ d) = elim (Bool-cases (not (is_private k) && not (is_left_out k))) [
    | inl kept ↦ rw kept ((ground (arith, kept), ground (arith, kept)), get_data-IsData d)
    | inr gone ↦ rw gone (get_data-IsData d)
  ]

  pub get_data-HasDistinctKeys :
      (d : List (String × V)) → HasDistinctKeys d → HasDistinctKeys (get_data C d)
  get_data-HasDistinctKeys [] h = tt
  get_data-HasDistinctKeys ((k, v) ∷ d) h =
      elim (Bool-cases (not (is_private k) && not (is_left_out k))) [
        | inl kept ↦ rw kept (
          All-select (λ (k', u). str_eq k k' ≡ false)
              (λ (key, u). not (is_private key) && not (is_left_out key)) d h.0,
          get_data-HasDistinctKeys d h.1,
        )
        | inr gone ↦ rw gone (get_data-HasDistinctKeys d h.1)
      ]

  pub is_private-apart :
      (k m : String) → is_private k ≡ false → is_private m ≡ true → str_eq k m ≡ false
  is_private-apart k m h h' = elim (Bool-cases (str_eq k m)) [
    | inl same ↦
        let met : k ≡ m = ground (arith, eq_iff k m) in
        let both : is_private k ≡ true = ap is_private met ∙ h' in absurd (ground arith)
    | inr other ↦ other
  ]

  pub is_left_out-apart :
      (k m : String) → is_left_out k ≡ true → is_left_out m ≡ false → str_eq k m ≡ false
  is_left_out-apart k m h h' = elim (Bool-cases (str_eq k m)) [
    | inl same ↦
        let met : k ≡ m = ground (arith, eq_iff k m) in
        let both : is_left_out m ≡ true = ap is_left_out (sym met) ∙ h in absurd (ground arith)
    | inr other ↦ other
  ]

  restore_data-cons :
      (k : String) (v : V) (kvs d : List (String × V))
      → is_private k ≡ false
      → restore_data C ((k, v) ∷ kvs) d ≡ restore_data C kvs (setattr C k v d)
  restore_data-cons k v kvs d h =
      let denied = is_private-apart k "_allowed_classes" h refl in
      let kept : (is_private k || str_eq k "_allowed_classes") ≡ false =
        ground (arith, h, denied) in
      rw kept refl

  -- A name that is not among the data keeps its value.
  pub restore_data-other :
      (default : V) (name : String) (kvs d : List (String × V))
      → All IsData kvs
      → All (λ (k, v). str_eq name k ≡ false) kvs
      → get_or str_eq default name (restore_data C kvs d) ≡ get_or str_eq default name d
  restore_data-other default name [] d public apart = refl
  restore_data-other default name ((k, v) ∷ kvs) d public apart =
      ap (get_or str_eq default name) (restore_data-cons k v kvs d public.0.0)
      ∙ restore_data-other default name kvs (setattr C k v d) public.1 apart.1
      ∙ getattr-setattr_other default name k v d apart.0

  pub restore_data-restores :
      (default : String → V) (kvs d : List (String × V))
      → All IsData kvs
      → HasDistinctKeys kvs
      → All (λ (k, v). get_or str_eq (default k) k (restore_data C kvs d) ≡ v) kvs
  restore_data-restores default [] d public apart = tt
  restore_data-restores default ((k, v) ∷ kvs) d public apart =
      let first_set = restore_data-cons k v kvs d public.0.0 in
      (
        ap (get_or str_eq (default k) k) first_set
            ∙ restore_data-other (default k) k kvs (setattr C k v d) public.1 apart.0
            ∙ getattr-setattr (default k) k v d,
        subst (λ new. All (λ (key, u). get_or str_eq (default key) key new ≡ u) kvs) (sym first_set)
            (restore_data-restores default kvs (setattr C k v d) public.1 apart.1),
      )
