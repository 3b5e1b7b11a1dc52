-- ===== src/RedisQueue/Due.antt =====
-- What `_migrate_delayed_jobs` moves, where every command is answered.
use route_mq.Prelude.{
  ℕ, ◌+◌, ◌≡◌, refl, sym, ap, ◌∙◌, inl, inr, true, false, not, List, [], ◌∷◌, ◌++◌, append-nil,
  append_assoc, arith, select, All, leb, Bool-cases,
}
use route_mq.Redis.{without, members_until, Distinct}
use route_mq.DatabaseQueue.{returns}
use route_mq.RedisQueue.{Entry, Storage, Fault, answered, Db, World, same_entry}
use route_mq.RedisQueue.Operations.{
  ready_jobs, move_due, move_all, due_jobs, move_found, migrate_delayed_jobs,
}
use route_mq.RedisQueue.Copies.Texts.{same_entry_sound, same_entry_refl}

-- Every command is answered.
abbrev pub calm : ℕ → Fault
calm n = answered

abbrev pub later_members : ℕ → List (Entry × ℕ) → List (Entry × ℕ)
later_members now = select λ (e, t). not (leb t now)

drop_all : List Entry → List (Entry × ℕ) → List (Entry × ℕ)
drop_all [] ms = ms
drop_all (e ∷ es) ms = drop_all es (without same_entry e ms)

same_entry_sym : (a b : Entry) → same_entry a b ≡ false → same_entry b a ≡ false
same_entry_sym a b h = elim (Bool-cases (same_entry b a)) [
  | inl same ↦
      let met : b ≡ a = same_entry_sound b a same in
      let self : same_entry a b ≡ true = rw met (same_entry_refl a) in absurd (ground arith)
  | inr other ↦ other
]

without-absent :
    (x : Entry) (ms : List (Entry × ℕ))
    → All (λ (y, t). same_entry x y ≡ false) ms
    → without same_entry x ms ≡ ms
without-absent x [] h = refl
without-absent x ((y, t) ∷ ms) h = rw (h.0) (ap (◌∷◌ (y, t)) (without-absent x ms h.1))

drop_all-cons :
    (now : ℕ) (x : Entry) (t : ℕ) (ms ns : List (Entry × ℕ))
    → All (λ (y, u). same_entry x y ≡ false) ms
    → drop_all (members_until now ms) ((x, t) ∷ ns) ≡ (x, t) ∷ drop_all (members_until now ms) ns
unfolding drop_all
drop_all-cons now x t [] ns h = refl
drop_all-cons now x t ((y, u) ∷ ms) ns h = elim (Bool-cases (leb u now)) [
  | inl due ↦ rw due (
      rw (same_entry_sym x y h.0, drop_all)
        (drop_all-cons now x t ms (without same_entry y ns) h.1))
  | inr late ↦ rw late (drop_all-cons now x t ms ns h.1)
]

drop_all-due :
    (now : ℕ) (ms : List (Entry × ℕ))
    → Distinct same_entry ms
    → drop_all (members_until now ms) ms ≡ later_members now ms
unfolding drop_all
drop_all-due now [] h = refl
drop_all-due now ((x, t) ∷ ms) h = elim (Bool-cases (leb t now)) [
  | inl due ↦
      rw due
        (rw (same_entry_refl x, drop_all) (rw (without-absent x ms h.0) (drop_all-due now ms h.1)))
  | inr late ↦ rw late (drop_all-cons now x t ms ms h.0 ∙ ap (◌∷◌ (x, t)) (drop_all-due now ms h.1))
]

module _ (S : Storage) where
  open S use {jobs as job_list, delayed_jobs as job_set}

  -- What a move to the waiting jobs leaves alone.
  pub record IsKept (old new : Db S) : Type 0 where
    pub reserved : new.reserved ≡ old.reserved
    pub failed : new.failed ≡ old.failed
    pub table : new.table ≡ old.table

  pub move_all-ready :
      (es : List Entry) (db : Db S) → ready_jobs S (move_all S es db) ≡ ready_jobs S db ++ es
  move_all-ready [] db = sym (append-nil (ready_jobs S db))
  move_all-ready (e ∷ es) db =
      move_all-ready es (move_due S e db)
      ∙ rw (job_list.items-rpush e db.ready) (append_assoc (ready_jobs S db) (e ∷ []) es)

  move_all-delayed :
      (es : List Entry) (db : Db S)
      → job_set.members (move_all S es db).delayed ≡ drop_all es (job_set.members db.delayed)
  unfolding drop_all
  move_all-delayed [] db = refl
  move_all-delayed (e ∷ es) db =
      move_all-delayed es (move_due S e db) ∙ rw (job_set.members-zrem e db.delayed) refl

  pub move_all-IsKept : (es : List Entry) (db : Db S) → IsKept db (move_all S es db)
  move_all-IsKept [] db = record { reserved = refl; failed = refl; table = refl }
  move_all-IsKept (e ∷ es) db =
      let rest = move_all-IsKept es (move_due S e db) in
      record { reserved = rest.reserved; failed = rest.failed; table = rest.table }

  pub move_all-later :
      (now : ℕ) (db : Db S)
      → job_set.members (move_all S (due_jobs S now db) db).delayed
        ≡ later_members now (job_set.members db.delayed)
  move_all-later now db =
      move_all-delayed (due_jobs S now db) db
      ∙ drop_all-due now (job_set.members db.delayed) (job_set.members_distinct db.delayed)

  move_found-calm :
      (es : List Entry) (w : World S)
      → (n : ℕ) × (move_found S true calm es w
          ≡ (returns tt, record { db = move_all S es w.db; commands = n }))
  move_found-calm [] w = (w.commands, refl)
  move_found-calm (e ∷ es) w = (w.commands + 1, refl)

  pub migrate_delayed_jobs-calm :
      (now : ℕ) (w : World S)
      → (n : ℕ) × (migrate_delayed_jobs S true calm now w
          ≡ (returns tt, record { db = move_all S (due_jobs S now w.db) w.db; commands = n }))
  unfolding migrate_delayed_jobs
  migrate_delayed_jobs-calm now w =
      let (n, e) =
        move_found-calm (due_jobs S now w.db) (record { db = w.db; commands = w.commands + 1 }) in
      (n, rw e refl)
