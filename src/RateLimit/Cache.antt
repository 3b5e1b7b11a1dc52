-- ===== src/RateLimit/Cache.antt =====
-- The entries that `_check_rate_limit_memory` of app/middleware/rate_limit.py keeps for its keys.
use route_mq.Prelude.{
  ℕ, ◌+◌, ◌*◌, ◌≤◌, ◌≡◌, refl, subst, ◌∙◌, inl, inr, Bool, true, false, not, ◌&&◌, Option, none,
  some, List, [], ◌∷◌, arith, ltb, All, select, if◌then◌else◌, Bool-cases,
}
use route_mq.RateLimit.{
  Key, Config, Entry, Limiter, window, is_old, key_eq, find_entry, put_entry, cleaned,
  cleanup_memory_cache, fresh_entry, opened, entry_at, check_entry, sliding_window_memory,
  fixed_window_memory, token_bucket_memory, check_rate_limit_memory,
}
use route_mq.RateLimit.Runs.{passes, admitted}

key_eq_refl : (k : Key) → key_eq k k ≡ true
key_eq_refl [] = refl
key_eq_refl (c ∷ cs) = ground (arith, key_eq_refl cs)

pub key_eq→≡ : (j k : Key) → key_eq j k ≡ true → j ≡ k
key_eq→≡ [] [] h = refl
key_eq→≡ [] (d ∷ ds) h = absurd (ground arith)
key_eq→≡ (c ∷ cs) [] h = absurd (ground arith)
key_eq→≡ (c ∷ cs) (d ∷ ds) h =
    let tails = key_eq→≡ cs ds (ground arith) in let heads : c ≡ d = ground arith in cc

pub find-put :
    (k : Key) (e : Entry) (es : List (Key × Entry)) → find_entry k (put_entry k e es) ≡ some e
unfolding find_entry put_entry
find-put k e [] = rw (key_eq_refl k) refl
find-put k e ((j, f) ∷ es) = elim (Bool-cases (key_eq k j)) [
  | inl same ↦ rw same (rw same refl)
  | inr other ↦ rw other (rw (other, find_entry) (find-put k e es))
]

pub find-put_other :
    (j k : Key) (e : Entry) (es : List (Key × Entry))
    → key_eq k j ≡ false
    → find_entry k (put_entry j e es) ≡ find_entry k es
unfolding find_entry put_entry
find-put_other j k e [] h = rw h refl
find-put_other j k e ((i, f) ∷ es) h = elim (Bool-cases (key_eq j i)) [
  | inl same ↦
      let differs : key_eq k i ≡ false = subst (λ i. key_eq k i ≡ false) (key_eq→≡ j i same) h in
      rw same (rw differs refl)
  | inr other ↦ rw other (ground (arith, find-put_other j k e es h))
]

pub find-select :
    (k : Key) (p : Entry → Bool) (es : List (Key × Entry))
    → (e : Entry) → find_entry k es ≡ some e
    → p e ≡ true
    → find_entry k (select (λ (j, f). p f) es) ≡ some e
unfolding find_entry
find-select k p [] e h keep = absurd (ground arith)
find-select k p ((j, f) ∷ es) e h keep = elim (Bool-cases (key_eq k j)) [
  | inl same ↦
      let here : some f ≡ some e =
        subst (λ b. (if b then some f else find_entry k es) ≡ some e) same h in
      let kept : p f ≡ true = ground arith in rw kept (rw same here)
  | inr other ↦
      let there : find_entry k es ≡ some e =
        subst (λ b. (if b then some f else find_entry k es) ≡ some e) other h in
      let rest = find-select k p es e there keep in ground (arith, rest)
]

pub find-select-none :
    (k : Key) (p : Entry → Bool) (es : List (Key × Entry))
    → find_entry k es ≡ none
    → find_entry k (select (λ (j, f). p f) es) ≡ none
unfolding find_entry
find-select-none k p [] h = refl
find-select-none k p ((j, f) ∷ es) h = elim (Bool-cases (key_eq k j)) [
  | inl same ↦
      let here : some f ≡ none =
        subst (λ b. (if b then some f else find_entry k es) ≡ none) same h in
      absurd (ground arith)
  | inr other ↦
      let there : find_entry k es ≡ none =
        subst (λ b. (if b then some f else find_entry k es) ≡ none) other h in
      let rest = find-select-none k p es there in ground (arith, rest)
]

pub check_entry-created :
    (c : Config) (e : Entry) (t : ℕ) → (check_entry c e t).1.created ≡ e.created
unfolding check_entry sliding_window_memory fixed_window_memory token_bucket_memory
check_entry-created c e t = ground arith

-- The requests of all keys in their order, each with its time.
abbrev pub Request : Type 0
Request = Key × ℕ

-- The times at which a key asks, and those at which it is allowed.
abbrev pub times_of : Key → List Request → List ℕ
times_of k [] = []
times_of k ((j, t) ∷ rs) = if key_eq k j then t ∷ times_of k rs else times_of k rs

abbrev pub allowed_for : Config → Key → Limiter → List Request → List ℕ
allowed_for c k l [] = []
allowed_for c k l ((j, t) ∷ rs) =
    let (v, l') = check_rate_limit_memory c j t l in
    let rest = allowed_for c k l' rs in if key_eq k j && passes v then t ∷ rest else rest

-- A key on its own, without a cache.
abbrev pub served : Config → Option Entry → List ℕ → List ℕ
served c (some e) ts = admitted (check_entry c) e ts
served c none [] = []
served c none (t ∷ ts) = admitted (check_entry c) (fresh_entry t) (t ∷ ts)

module _ (c : Config) (start : ℕ) where
  -- An entry that a cleanup keeps, for two windows from a time on.
  abbrev pub Lasts : Option Entry → Type 0
  Lasts none = Unit
  Lasts (some e) = start ≤ e.created

  abbrev pub Within : Request → Type 0
  Within (j, t) = (start ≤ t) × (t ≤ start + 2 * window c)

  find-cleanup :
      (k : Key) (now : ℕ) (l : Limiter) (o : Option Entry)
      → now ≤ start + 2 * window c
      → Lasts o
      → find_entry k l.memory_cache ≡ o
      → find_entry k (cleanup_memory_cache c now l).memory_cache ≡ o
  unfolding cleanup_memory_cache
  find-cleanup k now l none h lasts eq =
      find-select-none k (λ e. not (is_old c now e)) l.memory_cache eq
  find-cleanup k now l (some e) h lasts eq =
      find-select k (λ e. not (is_old c now e)) l.memory_cache e eq (ground arith)

  find-cleaned :
      (k : Key) (now : ℕ) (l : Limiter) (o : Option Entry)
      → now ≤ start + 2 * window c
      → Lasts o
      → find_entry k l.memory_cache ≡ o
      → find_entry k (cleaned c now l).memory_cache ≡ o
  find-cleaned k now l o h lasts eq =
      let after = find-cleanup k now l o h lasts eq in
      elim (Bool-cases (ltb (l.last_cleanup + 60000000) now)) [
        | inl due ↦ rw due after
        | inr soon ↦ rw soon eq
      ]

  check-own :
      (k : Key) (t : ℕ) (l : Limiter) (o : Option Entry)
      → Within (k, t)
      → Lasts o
      → find_entry k l.memory_cache ≡ o
      → ((check_rate_limit_memory c k t l).0 ≡ (check_entry c (opened t o) t).0)
        × (find_entry k (check_rate_limit_memory c k t l).1.memory_cache
            ≡ some (check_entry c (opened t o) t).1)
  unfolding check_rate_limit_memory
  check-own k t l o h lasts eq =
      let same = find-cleaned k t l o h.1 lasts eq in
      rw same (refl, find-put k (check_entry c (opened t o) t).1 (cleaned c t l).memory_cache)

  check-other :
      (j k : Key) (t : ℕ) (l : Limiter) (o : Option Entry)
      → key_eq k j ≡ false
      → Within (j, t)
      → Lasts o
      → find_entry k l.memory_cache ≡ o
      → find_entry k (check_rate_limit_memory c j t l).1.memory_cache ≡ o
  unfolding check_rate_limit_memory
  check-other j k t l o other h lasts eq =
      find-put_other j k (check_entry c (entry_at j t (cleaned c t l)) t).1
        (cleaned c t l).memory_cache other
      ∙ find-cleaned k t l o h.1 lasts eq

  served-opened :
      (o : Option Entry) (t : ℕ) (ts : List ℕ)
      → served c o (t ∷ ts) ≡ admitted (check_entry c) (opened t o) (t ∷ ts)
  served-opened none t ts = refl
  served-opened (some e) t ts = refl

  opened-Lasts :
      (o : Option Entry) (t : ℕ)
      → start ≤ t
      → Lasts o
      → Lasts (some (check_entry c (opened t o) t).1)
  opened-Lasts none t h lasts = omega (arith, check_entry-created c (fresh_entry t) t, h)
  opened-Lasts (some e) t h lasts = omega (arith, check_entry-created c e t, lasts)

  -- Until two windows after a time, whatever other keys ask and whenever entries are cleaned up,
  -- the requests of a key that are allowed are those that its strategy allows to this key alone,
  -- from its entry in the cache, made no earlier than that time, or else from a new one.
  pub allowed_for-served :
      (k : Key) (l : Limiter) (o : Option Entry) (rs : List Request)
      → find_entry k l.memory_cache ≡ o
      → Lasts o
      → All Within rs
      → allowed_for c k l rs ≡ served c o (times_of k rs)
  allowed_for-served k l none [] eq lasts h = refl
  allowed_for-served k l (some e) [] eq lasts h = refl
  allowed_for-served k l o ((j, t) ∷ rs) eq lasts h = elim (Bool-cases (key_eq k j)) [
    | inl same ↦
        let (verdict, after) = check-own k t l o h.0 lasts eq in
        let rest =
          allowed_for-served k (check_rate_limit_memory c k t l).1 _ rs after
            (opened-Lasts o t h.0.0 lasts) h.1 in
        subst (λ j. allowed_for c k l ((j, t) ∷ rs) ≡ served c o (times_of k ((j, t) ∷ rs)))
          (key_eq→≡ k j same)
          (rw (key_eq_refl k) (rw (served-opened o t (times_of k rs)) (rw verdict (rw rest refl))))
    | inr other ↦ rw other (
        allowed_for-served k (check_rate_limit_memory c j t l).1 o rs
          (check-other j k t l o other h.0 lasts eq) lasts h.1)
  ]
