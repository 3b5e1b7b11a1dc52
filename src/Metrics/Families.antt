-- ===== src/Metrics/Families.antt =====
-- A name of the registry belongs to one family.
use text.Mathlib.Text.{◌==◌ as str_eq}
use text.Mathlib.TextEquality.{eq_iff}
use route_mq.Prelude.{
  ℕ, ◌+◌, ◌≤◌, ◌≡◌, ap, ◌∙◌, inl, inr, false, ◌||◌, Option, none, some, List, [], ◌∷◌, ◌++◌, arith,
  Bool-cases,
}
use route_mq.Text.{String}
use route_mq.Metrics.{Counter, Gauge, Histogram}
use route_mq.Metrics.Registry.{
  lookup, has, is_taken, fresh_counter, fresh_gauge, fresh_histogram, counter_from, gauge_from,
  histogram_from, register, register_all, one_if, families, Registry, Registration, counter, gauge,
  histogram,
}

has-append :
    {A : Type 0} (name n : String) (a : A) (d : List (String × A))
    → has name (d ++ (n, a) ∷ []) ≡ (has name d || str_eq name n)
has-append name n a [] = ground arith
has-append name n a ((m, b) ∷ d) = let rest = has-append name n a d in ground (arith, rest)

-- The name that is added was in no family.
families-new :
    (name n : String) (r : Registry)
    → is_taken n r ≡ false
    → families name r ≤ 1
    → families name r + one_if (str_eq name n) ≤ 1
families-new name n r free h = elim (Bool-cases (str_eq name n)) [
  | inl same ↦
      let met : name ≡ n = ground (arith, eq_iff name n) in
      let free_name : is_taken name r ≡ false = ap (λ x. is_taken x r) met ∙ free in
      ground (arith, free_name, same)
  | inr other ↦ rw other (omega (arith, h))
]

one_if-has-append :
    {A : Type 0} (name n : String) (a : A) (d : List (String × A))
    → one_if (has name (d ++ (n, a) ∷ [])) ≤ one_if (has name d) + one_if (str_eq name n)
one_if-has-append name n a d =
    let added = has-append name n a d in
    elim (Bool-cases (has name d)) [
      | inl there ↦ ground (arith, added, there)
      | inr absent ↦ ground (arith, added, absent)
    ]

counter_from-le :
    (o : Option Counter) (name n help : String) (labels : List String) (r : Registry)
    → families name r ≤ 1
    → families name (counter_from o n help labels r).1 ≤ 1
counter_from-le (some c) name n help labels r h = h
counter_from-le none name n help labels r h = elim (Bool-cases (is_taken n r)) [
  | inl taken ↦ rw taken h
  | inr free ↦
      let one_more = families-new name n r free h in
      let added = one_if-has-append name n (fresh_counter help labels) r.counters in
      rw free (omega (arith, one_more, added))
]

gauge_from-le :
    (o : Option Gauge) (name n help : String) (labels : List String) (r : Registry)
    → families name r ≤ 1
    → families name (gauge_from o n help labels r).1 ≤ 1
gauge_from-le (some c) name n help labels r h = h
gauge_from-le none name n help labels r h = elim (Bool-cases (is_taken n r)) [
  | inl taken ↦ rw taken h
  | inr free ↦
      let one_more = families-new name n r free h in
      let added = one_if-has-append name n (fresh_gauge help labels) r.gauges in
      rw free (omega (arith, one_more, added))
]

histogram_from-le :
    (o : Option Histogram) (name n help : String) (labels : List String) (bounds : List ℕ)
    → (r : Registry) → families name r ≤ 1
    → families name (histogram_from o n help labels bounds r).1 ≤ 1
histogram_from-le (some c) name n help labels bounds r h = h
histogram_from-le none name n help labels bounds r h = elim (Bool-cases (is_taken n r)) [
  | inl taken ↦ rw taken h
  | inr free ↦
      let one_more = families-new name n r free h in
      let added = one_if-has-append name n (fresh_histogram help labels bounds) r.histograms in
      rw free (omega (arith, one_more, added))
]

register-le :
    (k : Registration) (name : String) (r : Registry)
    → families name r ≤ 1
    → families name (register k r) ≤ 1
unfolding register
register-le (counter n help labels) name r h =
    counter_from-le (lookup n r.counters) name n help labels r h
register-le (gauge n help labels) name r h =
    gauge_from-le (lookup n r.gauges) name n help labels r h
register-le (histogram n help labels bounds) name r h =
    histogram_from-le (lookup n r.histograms) name n help labels bounds r h

-- Registrations of any kind leave every name in one family at most, if it was so before.
pub register_all-le :
    (ks : List Registration) (name : String) (r : Registry)
    → families name r ≤ 1
    → families name (register_all ks r) ≤ 1
unfolding register_all
register_all-le [] name r h = h
register_all-le (k ∷ ks) name r h = register_all-le ks name (register k r) (register-le k name r h)
