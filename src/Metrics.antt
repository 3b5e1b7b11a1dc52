-- ===== src/Metrics.antt =====
-- routemq/metrics/registry.py: the metric families in memory. Numbers are exact and not negative,
-- so that NaN does not occur, and what a lock guards is one step.
pub mod Dict
pub mod Buckets
pub mod Counts
pub mod Exposition
pub mod Registry
pub mod Families
use text.Mathlib.Text.{◌==◌ as str_eq}
use route_mq.Prelude.{
  get_or, change, ℕ, suc, ◌+◌, Bool, true, false, ◌&&◌, Option, none, some, List, [], ◌∷◌, ◌++◌,
  map, leb, ◌==◌, if◌then◌else◌,
}
use route_mq.Text.{String}

abbrev pub LabelKey : Type 0
LabelKey = List (String × String)

abbrev pub same_label_key : LabelKey → LabelKey → Bool
same_label_key [] [] = true
same_label_key ((k, v) ∷ ls) ((k', v') ∷ ls') =
    (str_eq k k' && str_eq v v') && same_label_key ls ls'
same_label_key _ _ = false

-- `_to_label_key`; the values of the labels are texts.
abbrev pub to_label_key : List String → LabelKey → LabelKey
to_label_key names labels = map (λ name. (name, get_or str_eq "" name labels)) names

pub record Sample : Type 0 where
  pub name_suffix : String
  pub label_key : LabelKey
  pub value : ℕ

pub record HistogramObservation : Type 0 where
  pub buckets : List (ℕ × ℕ)
  pub sum : ℕ
  pub count : ℕ

-- `help` is kept for the exposition.
pub record Counter : Type 0 where
  pub help : String
  pub label_names : List String
  pub values : List (LabelKey × ℕ)

pub record Gauge : Type 0 where
  pub help : String
  pub label_names : List String
  pub values : List (LabelKey × ℕ)

pub record Histogram : Type 0 where
  pub help : String
  pub bucket_bounds : List ℕ
  pub label_names : List String
  pub values : List (LabelKey × HistogramObservation)

-- `{bound: 0.0 for bound in self.bucket_bounds}`
abbrev pub zero_buckets : List ℕ → List (ℕ × ℕ)
zero_buckets [] = []
zero_buckets (b ∷ bs) = change ◌==◌ 0 b (λ n. 0) (zero_buckets bs)

abbrev pub no_observation : List ℕ → HistogramObservation
no_observation bounds = record { buckets = zero_buckets bounds; sum = 0; count = 0 }

-- The loop over the bounds.
abbrev pub raise_buckets : ℕ → List ℕ → List (ℕ × ℕ) → List (ℕ × ℕ)
raise_buckets value [] d = d
raise_buckets value (b ∷ bs) d =
    raise_buckets value bs (if leb value b then change ◌==◌ 0 b suc d else d)

abbrev pub add_observation : ℕ → List ℕ → HistogramObservation → HistogramObservation
add_observation value bounds o = record {
  buckets = raise_buckets value bounds o.buckets;
  sum = o.sum + value;
  count = o.count + 1;
}

-- `Histogram.observe`
unfoldable pub observe : ℕ → LabelKey → Histogram → Histogram
observe value labels h = record h {
  values =
      change same_label_key (no_observation h.bucket_bounds) (to_label_key h.label_names labels)
        (add_observation value h.bucket_bounds) h.values;
}

-- The text of a bound is a parameter.
module _ (format_bucket_bound : ℕ → String) where
  abbrev bucket_samples : LabelKey → HistogramObservation → List ℕ → List Sample
  bucket_samples key o [] = []
  bucket_samples key o (b ∷ bs) =
      record {
        name_suffix = "_bucket";
        label_key = key ++ ("le", format_bucket_bound b) ∷ [];
        value = get_or ◌==◌ 0 b o.buckets;
      }
      ∷ bucket_samples key o bs

  abbrev observation_samples : List ℕ → LabelKey → HistogramObservation → List Sample
  observation_samples bounds key o =
      bucket_samples key o bounds
      ++ record { name_suffix = "_bucket"; label_key = key ++ ("le", "+Inf") ∷ []; value = o.count }
        ∷ record { name_suffix = "_sum"; label_key = key; value = o.sum }
        ∷ record { name_suffix = "_count"; label_key = key; value = o.count }
        ∷ []

  abbrev all_samples : List ℕ → List (LabelKey × HistogramObservation) → List Sample
  all_samples bounds [] = []
  all_samples bounds ((key, o) ∷ os) = observation_samples bounds key o ++ all_samples bounds os

  -- `Histogram.collect`
  unfoldable pub collect : Histogram → List Sample
  collect h = all_samples h.bucket_bounds h.values
