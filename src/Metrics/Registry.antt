-- ===== src/Metrics/Registry.antt =====
-- `MetricsRegistry`: a name belongs to one family.
use text.Mathlib.Text.{◌==◌ as str_eq}
use route_mq.Prelude.{
  ℕ, ◌+◌, Bool, true, false, ◌&&◌, ◌||◌, Option, none, some, List, [], ◌∷◌, ◌++◌, ◌==◌,
  if◌then◌else◌,
}
use route_mq.Text.{String}
use route_mq.Metrics.{Counter, Gauge, Histogram}

pub record Registry : Type 0 where
  pub counters : List (String × Counter)
  pub gauges : List (String × Gauge)
  pub histograms : List (String × Histogram)

pub data Reply (A : Type 0) : Type 0 where
  returns : A → Reply A
  raises : Reply A

abbrev pub lookup : {A : Type 0} → String → List (String × A) → Option A
lookup name [] = none
lookup name ((n, a) ∷ d) = if str_eq name n then some a else lookup name d

abbrev pub has : {A : Type 0} → String → List (String × A) → Bool
has name [] = false
has name ((n, a) ∷ d) = str_eq name n || has name d

abbrev same_names : List String → List String → Bool
same_names [] [] = true
same_names (n ∷ ns) (m ∷ ms) = str_eq n m && same_names ns ms
same_names _ _ = false

abbrev same_bounds : List ℕ → List ℕ → Bool
same_bounds [] [] = true
same_bounds (b ∷ bs) (c ∷ cs) = b == c && same_bounds bs cs
same_bounds _ _ = false

-- Whether `_existing_family_type` finds the name.
abbrev pub is_taken : String → Registry → Bool
is_taken name r = has name r.counters || (has name r.gauges || has name r.histograms)

abbrev pub fresh_counter : (help : String) → List String → Counter
fresh_counter help labels = record { help = help; label_names = labels; values = [] }

abbrev pub fresh_gauge : (help : String) → List String → Gauge
fresh_gauge help labels = record { help = help; label_names = labels; values = [] }

abbrev pub fresh_histogram : (help : String) → List String → List ℕ → Histogram
fresh_histogram help labels bounds = record {
  help = help;
  bucket_bounds = bounds;
  label_names = labels;
  values = [];
}

-- `_get_or_create_counter` for a name that may have a counter.
abbrev pub counter_from :
    Option Counter → String → (help : String) → List String → Registry → Reply Counter × Registry
counter_from (some c) name help labels r =
    (if same_names c.label_names labels then returns c else raises, r)
counter_from none name help labels r = if is_taken name r then (raises, r) else (
  returns (fresh_counter help labels),
  record r { counters = r.counters ++ (name, fresh_counter help labels) ∷ [] },
)

unfoldable pub get_or_create_counter :
    String → (help : String) → List String → Registry → Reply Counter × Registry
get_or_create_counter name help labels r = counter_from (lookup name r.counters) name help labels r

abbrev pub gauge_from :
    Option Gauge → String → (help : String) → List String → Registry → Reply Gauge × Registry
gauge_from (some g) name help labels r =
    (if same_names g.label_names labels then returns g else raises, r)
gauge_from none name help labels r = if is_taken name r then (raises, r) else (
  returns (fresh_gauge help labels),
  record r { gauges = r.gauges ++ (name, fresh_gauge help labels) ∷ [] },
)

unfoldable pub get_or_create_gauge :
    String → (help : String) → List String → Registry → Reply Gauge × Registry
get_or_create_gauge name help labels r = gauge_from (lookup name r.gauges) name help labels r

abbrev pub histogram_from :
    Option Histogram
    → String
    → (help : String) → List String
    → List ℕ
    → Registry
    → Reply Histogram × Registry
histogram_from (some h) name help labels bounds r = (
  if same_names h.label_names labels && same_bounds h.bucket_bounds bounds
      then returns h
      else raises,
  r,
)
histogram_from none name help labels bounds r = if is_taken name r then (raises, r) else (
  returns (fresh_histogram help labels bounds),
  record r { histograms = r.histograms ++ (name, fresh_histogram help labels bounds) ∷ [] },
)

unfoldable pub get_or_create_histogram :
    String → (help : String) → List String → List ℕ → Registry → Reply Histogram × Registry
get_or_create_histogram name help labels bounds r =
    histogram_from (lookup name r.histograms) name help labels bounds r

pub data Registration : Type 0 where
  counter : String → (help : String) → List String → Registration
  gauge : String → (help : String) → List String → Registration
  histogram : String → (help : String) → List String → List ℕ → Registration

abbrev pub after : {A : Type 0} → Reply A × Registry → Registry
after (a, r) = r

unfoldable pub register : Registration → Registry → Registry
unfolding get_or_create_counter get_or_create_gauge get_or_create_histogram
register (counter name help labels) r = after (get_or_create_counter name help labels r)
register (gauge name help labels) r = after (get_or_create_gauge name help labels r)
register (histogram name help labels bounds) r =
    after (get_or_create_histogram name help labels bounds r)

unfoldable pub register_all : List Registration → Registry → Registry
unfolding register
register_all [] r = r
register_all (k ∷ ks) r = register_all ks (register k r)

abbrev pub one_if : Bool → ℕ
one_if b = if b then 1 else 0

-- In how many of the three families a name is.
abbrev pub families : String → Registry → ℕ
families name r =
    one_if (has name r.counters) + one_if (has name r.gauges) + one_if (has name r.histograms)
