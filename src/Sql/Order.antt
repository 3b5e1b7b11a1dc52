-- ===== src/Sql/Order.antt =====
-- Primary keys: rows stand in ascending order of their keys, below the next key to be given.
use route_mq.Prelude.{
  ℕ, ◌≤◌, ◌<◌, ◌≡◌, Bool, List, [], ◌∷◌, ◌++◌, map, arith, select, All, All-append, All-select,
  All-imp, All-map, Bool-cases, inl, inr,
}
use route_mq.Sql.{Keyed, Table, rewrite}

module _ {V : Type 0} where
  abbrev pub Below : ℕ → List (Keyed V) → Type 0
  Below n = All λ r. r.id < n

  abbrev pub Above : ℕ → List (Keyed V) → Type 0
  Above n = All λ r. n < r.id

  abbrev pub Ascending : List (Keyed V) → Type 0
  Ascending [] = Unit
  Ascending (r ∷ rs) = Above r.id rs × Ascending rs

  id-rewrite : (p : Keyed V → Bool) (f : V → V) (r : Keyed V) → (rewrite p f r).id ≡ r.id
  id-rewrite p f r = ground arith

  Below-rewrite :
      (n : ℕ) (p : Keyed V → Bool) (f : V → V) (rs : List (Keyed V))
      → Below n rs
      → Below n (map (rewrite p f) rs)
  Below-rewrite n p f rs h = All-map _ (rewrite p f) rs (All-imp (λ r k. rw id-rewrite k) rs h)

  Above-rewrite :
      (n : ℕ) (p : Keyed V → Bool) (f : V → V) (rs : List (Keyed V))
      → Above n rs
      → Above n (map (rewrite p f) rs)
  Above-rewrite n p f rs h = All-map _ (rewrite p f) rs (All-imp (λ r k. rw id-rewrite k) rs h)

  Ascending-rewrite :
      (p : Keyed V → Bool) (f : V → V) (rs : List (Keyed V))
      → Ascending rs
      → Ascending (map (rewrite p f) rs)
  Ascending-rewrite p f [] h = tt
  Ascending-rewrite p f (r ∷ rs) h =
      (rw id-rewrite (Above-rewrite r.id p f rs h.0), Ascending-rewrite p f rs h.1)

  Ascending-select :
      (p : Keyed V → Bool) (rs : List (Keyed V)) → Ascending rs → Ascending (select p rs)
  Ascending-select p [] h = tt
  Ascending-select p (r ∷ rs) h = elim (Bool-cases (p r)) [
    | inl e ↦ rw e (All-select _ p rs h.0, Ascending-select p rs h.1)
    | inr e ↦ rw e (Ascending-select p rs h.1)
  ]

  Ascending-append :
      (rs : List (Keyed V)) (r : Keyed V) → Below r.id rs → Ascending rs → Ascending (rs ++ r ∷ [])
  Ascending-append [] r b h = (tt, tt)
  Ascending-append (x ∷ rs) r b h =
      (All-append _ rs (r ∷ []) h.0 (b.0, tt), Ascending-append rs r b.1 h.1)

  Below-mono : {m n : ℕ} (rs : List (Keyed V)) → m ≤ n → Below m rs → Below n rs
  Below-mono rs h = All-imp (λ r k. omega arith) rs

module _ {V : Type 0} (T : Table V) where
  pub record IsOrdered (s : T.State) : Type 0 where
    pub below : Below (T.next_id s) (T.rows s)
    pub ascending : Ascending (T.rows s)

  pub insert-IsOrdered : (v : V) (s : T.State) → IsOrdered s → IsOrdered (T.insert v s)
  insert-IsOrdered v s o = record {
    below = rw T.rows-insert (
        All-append _ _ _ (Below-mono (T.rows s) (omega (arith, T.next_id-insert v s)) o.below)
          (T.next_id-insert v s, tt));
    ascending = rw T.rows-insert (Ascending-append _ _ o.below o.ascending);
  }

  pub update-IsOrdered :
      (p : Keyed V → Bool) (f : V → V) (s : T.State) → IsOrdered s → IsOrdered (T.update p f s)
  update-IsOrdered p f s o = record {
    below =
        rw T.rows-update
          (Below-rewrite _ p f _ (Below-mono (T.rows s) (T.next_id-update p f s) o.below));
    ascending = rw T.rows-update (Ascending-rewrite p f _ o.ascending);
  }

  pub delete-IsOrdered : (p : Keyed V → Bool) (s : T.State) → IsOrdered s → IsOrdered (T.delete p s)
  delete-IsOrdered p s o = record {
    below =
        rw T.rows-delete (All-select _ _ _ (Below-mono (T.rows s) (T.next_id-delete p s) o.below));
    ascending = rw T.rows-delete (Ascending-select _ _ o.ascending);
  }
