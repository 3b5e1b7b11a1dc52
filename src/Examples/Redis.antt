-- ===== src/Examples/Redis.antt =====
-- Redis keys in memory meet the laws that the queue relies on.
use route_mq.Prelude.{
  ℕ, ◌≡◌, refl, inl, inr, Bool, false, not, List, [], ◌∷◌, ◌++◌, select, All, All-select,
  Bool-cases,
}
use route_mq.Redis.{RedisList, SortedSet, remove_first, init, without, Distinct}
use route_mq.RedisQueue.{Entry, FailedEntry, same_entry, same_failed, Storage}
use route_mq.DatabaseQueue.{FailedJob}
use route_mq.Examples.Tables.{memory, decode}

abbrev pub list_key : (A : Type 0) (same : A → A → Bool) → RedisList A same
list_key A same = record {
  State = List A;
  items = λ s. s;
  rpush = λ x s. s ++ x ∷ [];
  lpush = λ x s. x ∷ s;
  rpop = init;
  lrem = remove_first same;
  clear = λ s. [];
  items-rpush = λ x s. refl;
  items-lpush = λ x s. refl;
  items-rpop = λ s. refl;
  items-lrem = λ x s. refl;
  items-clear = λ s. refl;
}

module _ {A : Type 0} (same : A → A → Bool) where
  pub Distinct-select :
      (p : A × ℕ → Bool) (ms : List (A × ℕ)) → Distinct same ms → Distinct same (select p ms)
  Distinct-select p [] h = tt
  Distinct-select p ((x, t) ∷ ms) h = elim (Bool-cases (p (x, t))) [
    | inl kept ↦
        rw kept (All-select (λ (y, u). same x y ≡ false) p ms h.0, Distinct-select p ms h.1)
    | inr gone ↦ rw gone (Distinct-select p ms h.1)
  ]

  pub without-All :
      (x : A) (ms : List (A × ℕ)) → All (λ (y, t). same x y ≡ false) (without same x ms)
  without-All x [] = tt
  without-All x ((y, t) ∷ ms) = elim (Bool-cases (same x y)) [
    | inl gone ↦ rw gone (without-All x ms)
    | inr kept ↦ rw kept (kept, without-All x ms)
  ]

-- The members in the order of their addition, the newest first.
abbrev pub set_key : (A : Type 0) (same : A → A → Bool) → SortedSet A same
set_key A same = record {
  State = (ms : List (A × ℕ)) × Distinct same ms;
  members = λ (ms, d). ms;
  zadd = λ x t (ms, d). (
    (x, t) ∷ without same x ms,
    (without-All same x ms, Distinct-select same (λ (y, u). not (same x y)) ms d),
  );
  zrem = λ x (ms, d). (without same x ms, Distinct-select same (λ (y, u). not (same x y)) ms d);
  members_distinct = λ (ms, d). d;
  members-zadd = λ x t (ms, d). ([], without same x ms, refl, refl);
  members-zrem = λ x (ms, d). refl;
}

abbrev pub redis : Storage
redis = record {
  jobs = list_key Entry same_entry;
  failed_jobs = list_key FailedEntry same_failed;
  delayed_jobs = set_key Entry same_entry;
  failed_table = memory FailedJob;
  decode = decode;
}
