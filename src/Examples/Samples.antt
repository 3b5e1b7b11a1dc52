-- ===== src/Examples/Samples.antt =====
-- Runs of routemq/metrics.
use route_mq.Prelude.{ℕ, ◌≤◌, ◌≡◌, refl, some, List, [], ◌∷◌, arith}
use route_mq.Text.{String, codes}
use route_mq.Metrics.{LabelKey}
use route_mq.Metrics.Counts.{
  IsTally, values_of, observed, observe_all, observation_of, observe_all-IsTally,
}
use route_mq.Metrics.Exposition.{Chars, format_labels, read_labels, read_labels-format_labels}
use route_mq.Metrics.Registry.{Registry, Registration, counter, gauge, register_all, families}
use route_mq.Metrics.Families.{register_all-le}

abbrev label : String → LabelKey
label route = ("route", route) ∷ []

abbrev observations : List (ℕ × LabelKey)
observations = (7, label "a") ∷ (3, label "b") ∷ (12, label "a") ∷ []

-- A value with a quote, a backslash and a line feed.
abbrev hard_label : Chars × Chars
hard_label = (codes "route", 34 ∷ 92 ∷ 10 ∷ [])

abbrev empty_registry : Registry
empty_registry = record { counters = []; gauges = []; histograms = [] }

abbrev registrations : List Registration
registrations = counter "jobs" "Jobs" [] ∷ gauge "jobs" "Depth" [] ∷ gauge "depth" "Depth" [] ∷ []

one_bucket :
    (observation_of (label "a") (observed (5 ∷ 10 ∷ []) ("route" ∷ []) observations)).count ≡ 2
unfolding observe_all
one_bucket = refl

-- A bound that stands twice counts each value twice.
doubled :
    (observation_of
      (label "a")
      (observed (10 ∷ 10 ∷ []) ("route" ∷ []) ((7, label "a") ∷ []))).buckets
    ≡ (10, 2) ∷ []
unfolding observe_all
doubled = refl

-- The gauge is refused, since its name is a counter's.
refused : families "jobs" (register_all registrations empty_registry) ≡ 1
unfolding register_all
refused = refl

observe_all-IsTally_example :
    IsTally
      (5 ∷ 10 ∷ [])
      (values_of ("route" ∷ []) (label "a") observations)
      (observation_of (label "a") (observed (5 ∷ 10 ∷ []) ("route" ∷ []) observations))
observe_all-IsTally_example =
    observe_all-IsTally (5 ∷ 10 ∷ []) ("route" ∷ []) (label "a") observations ((refl, tt), (tt, tt))

read_labels-format_labels_example :
    read_labels 2 (format_labels (hard_label ∷ hard_label ∷ []))
    ≡ some (hard_label ∷ hard_label ∷ [])
read_labels-format_labels_example =
    read_labels-format_labels hard_label (hard_label ∷ []) (refl, (refl, tt))

register_all-le_example : families "jobs" (register_all registrations empty_registry) ≤ 1
register_all-le_example = register_all-le registrations "jobs" empty_registry (omega arith)
