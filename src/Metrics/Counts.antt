-- ===== src/Metrics/Counts.antt =====
-- A histogram after any observations: the buckets of a labelset count what they say.
use route_mq.Prelude.{
  get_or, get_or-change, get_or-change_other, ℕ, ◌+◌, ◌≡◌, refl, sym, ap, subst, ◌∙◌, inl, inr,
  true, false, List, [], ◌∷◌, arith, select, length, All, leb, ◌==◌, if◌then◌else◌, Bool-cases,
}
use route_mq.Text.{String}
use route_mq.Metrics.{
  LabelKey, same_label_key, to_label_key, HistogramObservation, Histogram, zero_buckets,
  no_observation, raise_buckets, add_observation, observe,
}
use route_mq.Metrics.Dict.{same_label_key_sound, same_label_key_refl}
use route_mq.Metrics.Buckets.{
  AreDistinct, bucket, within, bucket-zero_buckets, All-both, raise_buckets-Raised,
}

-- How many of the values a bucket has.
abbrev pub at_most : ℕ → List ℕ → ℕ
at_most b vs = length (select (λ v. leb v b) vs)

abbrev pub total : List ℕ → ℕ
total [] = 0
total (v ∷ vs) = v + total vs

-- An observation that has counted these values.
pub record IsTally (bounds vs : List ℕ) (o : HistogramObservation) : Type 0 where
  pub count : o.count ≡ length vs
  pub sum : o.sum ≡ total vs
  pub buckets : All (λ b. get_or ◌==◌ 0 b o.buckets ≡ at_most b vs) bounds

no_observation-IsTally : (bounds : List ℕ) → IsTally bounds [] (no_observation bounds)
no_observation-IsTally bounds = record { count = refl; sum = refl; buckets = none_there bounds }
  where
    none_there : (bs : List ℕ) → All (λ b. bucket b (zero_buckets bounds) ≡ 0) bs
    none_there [] = tt
    none_there (b ∷ bs) = (bucket-zero_buckets bounds b, none_there bs)

at_most-cons : (b v : ℕ) (vs : List ℕ) → at_most b (v ∷ vs) ≡ at_most b vs + within v b
at_most-cons b v vs = elim (Bool-cases (leb v b)) [
  | inl below ↦ rw below (omega arith)
  | inr above ↦ rw above (omega arith)
]

add_observation-IsTally :
    (bounds vs : List ℕ) (value : ℕ) (o : HistogramObservation)
    → AreDistinct bounds
    → IsTally bounds vs o
    → IsTally bounds (value ∷ vs) (add_observation value bounds o)
add_observation-IsTally bounds vs value o h k = record {
  count = omega (arith, k.count);
  sum = omega (arith, k.sum);
  buckets =
      All-both {R = λ b. bucket b (raise_buckets value bounds o.buckets) ≡ at_most b (value ∷ vs)}
        (λ b raised old. raised ∙ ap (λ n. n + within value b) old ∙ sym (at_most-cons b value vs))
        bounds (raise_buckets-Raised value bounds o.buckets h) k.buckets;
}

-- The last observation comes first.
unfoldable pub observe_all : List (ℕ × LabelKey) → Histogram → Histogram
unfolding observe
observe_all [] h = h
observe_all ((value, labels) ∷ os) h = observe value labels (observe_all os h)

-- The observed values of a labelset.
abbrev pub values_of : List String → LabelKey → List (ℕ × LabelKey) → List ℕ
values_of names key [] = []
values_of names key ((value, labels) ∷ os) =
    if same_label_key key (to_label_key names labels)
    then value ∷ values_of names key os
    else values_of names key os

abbrev pub new_histogram : List ℕ → List String → Histogram
new_histogram bounds names = record {
  help = "";
  bucket_bounds = bounds;
  label_names = names;
  values = [];
}

abbrev pub observation_of : LabelKey → Histogram → HistogramObservation
observation_of key h = get_or same_label_key (no_observation h.bucket_bounds) key h.values

observation_of-observe :
    (key : LabelKey) (value : ℕ) (labels : LabelKey) (h : Histogram)
    → same_label_key key (to_label_key h.label_names labels) ≡ true
    → observation_of key (observe value labels h)
      ≡ add_observation value h.bucket_bounds (observation_of key h)
unfolding observe
observation_of-observe key value labels h same =
    let its_key = same_label_key_sound key (to_label_key h.label_names labels) same in
    subst
      (λ k.
        get_or same_label_key (no_observation h.bucket_bounds) k (observe value labels h).values
        ≡ add_observation value h.bucket_bounds
            (get_or same_label_key (no_observation h.bucket_bounds) k h.values))
      (sym its_key)
      (get_or-change same_label_key same_label_key_refl (no_observation h.bucket_bounds)
        (to_label_key h.label_names labels) (add_observation value h.bucket_bounds) h.values)

observation_of-other :
    (key : LabelKey) (value : ℕ) (labels : LabelKey) (h : Histogram)
    → same_label_key key (to_label_key h.label_names labels) ≡ false
    → observation_of key (observe value labels h) ≡ observation_of key h
unfolding observe
observation_of-other key value labels h other =
    get_or-change_other same_label_key same_label_key_refl same_label_key_sound
      (no_observation h.bucket_bounds) (to_label_key h.label_names labels) key
      (add_observation value h.bucket_bounds) h.values other

observe-IsTally :
    (key : LabelKey) (value : ℕ) (labels : LabelKey) (h : Histogram) (vs : List ℕ)
    → AreDistinct h.bucket_bounds
    → IsTally h.bucket_bounds vs (observation_of key h)
    → IsTally h.bucket_bounds
        (if same_label_key key (to_label_key h.label_names labels) then value ∷ vs else vs)
        (observation_of key (observe value labels h))
observe-IsTally key value labels h vs apart k =
    elim (Bool-cases (same_label_key key (to_label_key h.label_names labels))) [
      | inl same ↦ rw same (
          subst (λ o. IsTally h.bucket_bounds (value ∷ vs) o)
            (sym (observation_of-observe key value labels h same))
            (add_observation-IsTally h.bucket_bounds vs value (observation_of key h) apart k))
      | inr other ↦ rw other (
          subst (λ o. IsTally h.bucket_bounds vs o)
            (sym (observation_of-other key value labels h other)) k)
    ]

module _ (bounds : List ℕ) (names : List String) where
  abbrev pub observed : List (ℕ × LabelKey) → Histogram
  observed os = observe_all os (new_histogram bounds names)

  observed-settings :
      (os : List (ℕ × LabelKey))
      → ((observed os).bucket_bounds ≡ bounds) × ((observed os).label_names ≡ names)
  unfolding observe_all
  observed-settings [] = (refl, refl)
  observed-settings ((value, labels) ∷ os) = observed-settings os

  observed-nil : observed [] ≡ new_histogram bounds names
  unfolding observe_all
  observed-nil = refl

  observed-cons :
      (value : ℕ) (labels : LabelKey) (os : List (ℕ × LabelKey))
      → observed ((value, labels) ∷ os) ≡ observe value labels (observed os)
  unfolding observe_all
  observed-cons value labels os = refl

  -- After any observations of a new histogram whose bounds differ from each other, each labelset has
  -- the count and the sum of its values, and each bucket has the number of values up to its bound.
  pub observe_all-IsTally :
      (key : LabelKey) (os : List (ℕ × LabelKey))
      → AreDistinct bounds
      → IsTally bounds (values_of names key os) (observation_of key (observed os))
  observe_all-IsTally key [] apart =
      subst (λ h. IsTally bounds [] (observation_of key h)) (sym observed-nil)
        (no_observation-IsTally bounds)
  observe_all-IsTally key ((value, labels) ∷ os) apart =
      let (same_bounds, same_names) = observed-settings os in
      let here =
        observe-IsTally key value labels (observed os) (values_of names key os)
          (subst AreDistinct (sym same_bounds) apart)
          (subst (λ bs. IsTally bs (values_of names key os) (observation_of key (observed os)))
            (sym same_bounds) (observe_all-IsTally key os apart)) in
      let bounded =
        subst
          (λ bs.
            IsTally bs
              (if same_label_key key (to_label_key (observed os).label_names labels)
                then value ∷ values_of names key os
                else values_of names key os)
              (observation_of key (observe value labels (observed os))))
          same_bounds here in
      let named =
        subst
          (λ ns.
            IsTally bounds
              (if same_label_key key (to_label_key ns labels)
                then value ∷ values_of names key os
                else values_of names key os)
              (observation_of key (observe value labels (observed os))))
          same_names bounded in
      subst
        (λ h. IsTally bounds (values_of names key ((value, labels) ∷ os)) (observation_of key h))
        (sym (observed-cons value labels os)) named
