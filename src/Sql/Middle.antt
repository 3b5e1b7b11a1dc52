-- ===== src/Sql/Middle.antt =====
-- A statement on one primary key changes one row.
use mathlib.Core.Path.{ap₂}
use route_mq.Prelude.{
  ℕ, ◌≡◌, ◌≢◌, refl, Bool, not, List, [], ◌∷◌, ◌++◌, map, arith, select, All, All-append_right,
  All-imp, ◌==◌,
}
use route_mq.Sql.{Keyed, rewrite}
use route_mq.Sql.Order.{Below, Above, Ascending}

module _ {V : Type 0} where
  abbrev pub at : ℕ → Keyed V → Bool
  at n r = r.id == n

  abbrev NoneAt : ℕ → List (Keyed V) → Type 0
  NoneAt n = All λ r. r.id ≢ n

  pub Below-NoneAt : (n : ℕ) (rs : List (Keyed V)) → Below n rs → NoneAt n rs
  Below-NoneAt n rs = All-imp (λ r h e. omega arith) rs

  pub Above-NoneAt : (n : ℕ) (rs : List (Keyed V)) → Above n rs → NoneAt n rs
  Above-NoneAt n rs = All-imp (λ r h e. omega arith) rs

  -- A row parts an ascending list into smaller and larger keys.
  pub Ascending-Below :
      (before : List (Keyed V)) (r : Keyed V) (after : List (Keyed V))
      → Ascending (before ++ r ∷ after)
      → Below r.id before
  Ascending-Below [] r after h = tt
  Ascending-Below (x ∷ xs) r after h =
      ((All-append_right _ xs (r ∷ after) h.0).0, Ascending-Below xs r after h.1)

  pub Ascending-Above :
      (before : List (Keyed V)) (r : Keyed V) (after : List (Keyed V))
      → Ascending (before ++ r ∷ after)
      → Above r.id after
  Ascending-Above [] r after h = h.0
  Ascending-Above (x ∷ xs) r after h = Ascending-Above xs r after h.1

  rewrite-NoneAt :
      (n : ℕ) (f : V → V) (rs : List (Keyed V)) → NoneAt n rs → map (rewrite (at n) f) rs ≡ rs
  rewrite-NoneAt n f [] h = refl
  rewrite-NoneAt n f (r ∷ rs) h = ap₂ ◌∷◌ (ground (arith, h.0)) (rewrite-NoneAt n f rs h.1)

  select-NoneAt : (n : ℕ) (rs : List (Keyed V)) → NoneAt n rs → select (λ r. not (at n r)) rs ≡ rs
  select-NoneAt n [] h = refl
  select-NoneAt n (r ∷ rs) h = ground (arith, h.0, select-NoneAt n rs h.1)

  pub rewrite-middle :
      (f : V → V) (before : List (Keyed V)) (r : Keyed V) (after : List (Keyed V))
      → Ascending (before ++ r ∷ after)
      → map (rewrite (at r.id) f) (before ++ r ∷ after)
        ≡ before ++ record r { columns = f r.columns } ∷ after
  rewrite-middle f [] r after h =
      ap₂ ◌∷◌ (ground arith) (rewrite-NoneAt r.id f after (Above-NoneAt r.id after h.0))
  rewrite-middle f (x ∷ xs) r after h =
      ap₂ ◌∷◌ (ground (arith, (Ascending-Below (x ∷ xs) r after h).0))
        (rewrite-middle f xs r after h.1)

  pub select-middle :
      (before : List (Keyed V)) (r : Keyed V) (after : List (Keyed V))
      → Ascending (before ++ r ∷ after)
      → select (λ x. not (at r.id x)) (before ++ r ∷ after) ≡ before ++ after
  select-middle [] r after h =
      ground (arith, select-NoneAt r.id after (Above-NoneAt r.id after h.0))
  select-middle (x ∷ xs) r after h =
      ground (arith, (Ascending-Below (x ∷ xs) r after h).0, select-middle xs r after h.1)
