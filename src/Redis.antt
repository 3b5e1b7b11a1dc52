-- ===== src/Redis.antt =====
-- The lists and sorted sets of a Redis server as routemq/queue/redis_queue.py uses them. The server
-- is no part of the repository: it is a parameter, with the documented effect of each command as
-- laws.
use route_mq.Prelude.{
  ℕ, ◌≡◌, Bool, not, Option, none, some, List, [], ◌∷◌, ◌++◌, map, select, All, false, leb,
  if◌then◌else◌,
}

-- LREM key 1 x
abbrev pub remove_first : {A : Type 0} → (A → A → Bool) → A → List A → List A
remove_first same x [] = []
remove_first same x (y ∷ ys) = if same x y then ys else y ∷ remove_first same x ys

abbrev pub last : {A : Type 0} → List A → Option A
last [] = none
last (x ∷ []) = some x
last (x ∷ y ∷ ys) = last (y ∷ ys)

abbrev pub init : {A : Type 0} → List A → List A
init [] = []
init (x ∷ []) = []
init (x ∷ y ∷ ys) = x ∷ init (y ∷ ys)

-- A key that holds a list, whose values are compared by `same`.
pub record RedisList (A : Type 0) (same : A → A → Bool) : Type 1 where
  pub State : Type 0
  -- LRANGE key 0 -1
  pub items : State → List A
  pub rpush : A → State → State
  pub lpush : A → State → State
  -- RPOP, for the first half of RPOPLPUSH
  pub rpop : State → State
  pub lrem : A → State → State
  -- DEL
  pub clear : State → State
  pub items-rpush : (x : A) (s : State) → items (rpush x s) ≡ items s ++ x ∷ []
  pub items-lpush : (x : A) (s : State) → items (lpush x s) ≡ x ∷ items s
  pub items-rpop : (s : State) → items (rpop s) ≡ init (items s)
  pub items-lrem : (x : A) (s : State) → items (lrem x s) ≡ remove_first same x (items s)
  pub items-clear : (s : State) → items (clear s) ≡ []

-- The members of a sorted set with their scores, but for one.
abbrev pub without : {A : Type 0} → (A → A → Bool) → A → List (A × ℕ) → List (A × ℕ)
without same x = select λ (y, t). not (same x y)

abbrev pub members_until : {A : Type 0} → ℕ → List (A × ℕ) → List A
members_until now ms = map (λ (x, t). x) (select (λ (x, t). leb t now) ms)

abbrev pub Distinct : {A : Type 0} → (A → A → Bool) → List (A × ℕ) → Type 0
Distinct same [] = Unit
Distinct same ((x, t) ∷ ms) = All (λ (y, u). same x y ≡ false) ms × Distinct same ms

-- A key that holds a sorted set.
pub record SortedSet (A : Type 0) (same : A → A → Bool) : Type 1 where
  pub State : Type 0
  -- ZRANGE key 0 -1 WITHSCORES
  pub members : State → List (A × ℕ)
  pub zadd : A → ℕ → State → State
  pub zrem : A → State → State
  pub members_distinct : (s : State) → Distinct same (members s)
  -- A member is put in its place, and an old score that it had is gone.
  pub members-zadd :
      (x : A) (t : ℕ) (s : State)
      → (before : List (A × ℕ)) × (after : List (A × ℕ)) × (members (zadd x t s)
          ≡ before ++ (x, t) ∷ after)
        × (without same x (members s) ≡ before ++ after)
  pub members-zrem : (x : A) (s : State) → members (zrem x s) ≡ without same x (members s)
