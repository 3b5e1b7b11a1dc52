-- ===== src/RedisQueue/Copies/Moves.antt =====
-- The copies of a job before and after each change of the keys.
use route_mq.Prelude.{
  ℕ, ◌+◌, ◌≤◌, ◌≡◌, refl, sym, subst, ◌∙◌, inl, inr, true, false, List, [], ◌∷◌, ◌++◌, arith, leb,
  All, All-imp, Bool-cases, Option-cases,
}
use route_mq.Redis.{last, without, members_until, Distinct}
use route_mq.RedisQueue.{Entry, Storage, Db, same_entry}
use route_mq.RedisQueue.Operations.{
  ready_jobs, reserved_jobs, push_ready, push_reserved, drop_reserved, add_delayed, moved_last,
  move_last, move_due, move_all, due_jobs,
}
use route_mq.RedisQueue.Copies.Texts.{
  same_entry_sound, same_entry_refl, weight, tally, tally_members, tally-append, tally-init,
  tally-remove_first, tally-without-le, tally_members-append, occurs, tally-without,
}

-- No two of the jobs are the same text.
abbrev Apart : List Entry → Type 0
Apart [] = Unit
Apart (x ∷ xs) = All (λ y. same_entry x y ≡ false) xs × Apart xs

occurs-without :
    (x y : Entry) (ms : List (Entry × ℕ))
    → same_entry x y ≡ false
    → occurs y ms ≡ true
    → occurs y (without same_entry x ms) ≡ true
occurs-without x y [] other h = h
occurs-without x y ((z, t) ∷ ms) other h = elim (Bool-cases (same_entry x z)) [
  | inl same ↦ elim (Bool-cases (same_entry y z)) [
    | inl equal ↦
        let met : x ≡ y = (same_entry_sound x z same) ∙ sym (same_entry_sound y z equal) in
        let clash : same_entry x y ≡ true =
          subst (λ y. same_entry x y ≡ true) met (same_entry_refl x) in
        absurd (ground arith)
    | inr apart ↦
        let there : occurs y ms ≡ true = ground (arith, h, apart) in
        rw same (occurs-without x y ms other there)
  ]
  | inr kept ↦ rw kept (elim (Bool-cases (same_entry y z)) [
    | inl equal ↦ rw equal refl
    | inr apart ↦
        let there : occurs y ms ≡ true = ground (arith, h, apart) in
        let rest = occurs-without x y ms other there in ground (arith, rest)
  ])
]

apart_from :
    (x : Entry) (now : ℕ) (ms : List (Entry × ℕ))
    → All (λ (y, t). same_entry x y ≡ false) ms
    → All (λ y. same_entry x y ≡ false) (members_until now ms)
apart_from x now [] h = tt
apart_from x now ((y, t) ∷ ms) h = elim (Bool-cases (leb t now)) [
  | inl due ↦ rw due (h.0, apart_from x now ms h.1)
  | inr late ↦ rw late (apart_from x now ms h.1)
]

members_until-Apart :
    (now : ℕ) (ms : List (Entry × ℕ)) → Distinct same_entry ms → Apart (members_until now ms)
members_until-Apart now [] h = tt
members_until-Apart now ((x, t) ∷ ms) h = elim (Bool-cases (leb t now)) [
  | inl due ↦ rw due (apart_from x now ms h.0, members_until-Apart now ms h.1)
  | inr late ↦ rw late (members_until-Apart now ms h.1)
]

members_until-occurs :
    (now : ℕ) (ms : List (Entry × ℕ)) → All (λ e. occurs e ms ≡ true) (members_until now ms)
members_until-occurs now [] = tt
members_until-occurs now ((x, t) ∷ ms) =
    let more : (e : Entry) → occurs e ms ≡ true → occurs e ((x, t) ∷ ms) ≡ true =
      λ e h. ground (arith, h) in
    let rest = All-imp more (members_until now ms) (members_until-occurs now ms) in
    elim (Bool-cases (leb t now)) [
      | inl due ↦ rw due ((let self = same_entry_refl x in ground (arith, self)), rest)
      | inr late ↦ rw late rest
    ]

module _ (S : Storage) (i : ℕ) where
  open S use {jobs as job_list, delayed_jobs as job_set}

  -- How many jobs with the id wait, are delayed or are reserved.
  abbrev pub copies : Db S → ℕ
  copies db =
      tally i (ready_jobs S db)
      + tally_members i (job_set.members db.delayed)
      + tally i (reserved_jobs S db)

  pub copies-push_ready :
      (e : Entry) (db : Db S) → copies (push_ready S e db) ≡ copies db + weight i e
  copies-push_ready e db =
      rw (job_list.items-rpush e db.ready)
        (omega (arith, tally-append i (ready_jobs S db) (e ∷ [])))

  pub copies-push_reserved :
      (e : Entry) (db : Db S) → copies (push_reserved S e db) ≡ copies db + weight i e
  copies-push_reserved e db =
      rw (job_list.items-rpush e db.reserved)
        (omega (arith, tally-append i (reserved_jobs S db) (e ∷ [])))

  pub copies-drop_reserved :
      (e : Entry) (db : Db S) (before after : List Entry)
      → reserved_jobs S db ≡ before ++ e ∷ after
      → copies (drop_reserved S e db) + weight i e ≡ copies db
  copies-drop_reserved e db before after h =
      let gone = tally-remove_first i e before after in
      rw (job_list.items-lrem e db.reserved) (rw h (omega (arith, gone)))

  pub copies-add_delayed :
      (e : Entry) (t : ℕ) (db : Db S) → copies (add_delayed S e t db) ≤ copies db + weight i e
  copies-add_delayed e t db =
      let (before, after, added, rest) = job_set.members-zadd e t db.delayed in
      let split = tally_members-append i before ((e, t) ∷ after) in
      let joined = tally_members-append i before after in
      let less = tally-without-le i e (job_set.members db.delayed) in
      let less' : tally_members i (before ++ after) ≤ tally_members i (job_set.members db.delayed) =
        subst (λ ms. tally_members i ms ≤ tally_members i (job_set.members db.delayed)) rest less in
      rw added (omega (arith, split, joined, less'))

  pub copies-move_last : (db : Db S) → copies (move_last S db).1 ≤ copies db
  copies-move_last db = elim (Option-cases (last (ready_jobs S db))) [
    | inl empty ↦ rw (empty, moved_last) (omega arith)
    | inr (e, found) ↦
        let gone = tally-init i (ready_jobs S db) e found in
        rw (found, moved_last)
          (rw (job_list.items-rpop db.ready)
            (rw (job_list.items-lpush e db.reserved) (omega (arith, gone))))
  ]

  copies-move_due :
      (e : Entry) (db : Db S)
      → occurs e (job_set.members db.delayed) ≡ true
      → copies (move_due S e db) ≤ copies db
  copies-move_due e db here =
      let gone = tally-without i e (job_set.members db.delayed) here in
      rw (job_list.items-rpush e db.ready) (
        rw (job_set.members-zrem e db.delayed)
          (omega (arith, gone, tally-append i (ready_jobs S db) (e ∷ []))))

  copies-move_all :
      (es : List Entry) (db : Db S)
      → Apart es
      → All (λ e. occurs e (job_set.members db.delayed) ≡ true) es
      → copies (move_all S es db) ≤ copies db
  copies-move_all [] db apart here = omega arith
  copies-move_all (e ∷ es) db apart here =
      let first_moved = copies-move_due e db here.0 in
      let rest = copies-move_all es (move_due S e db) apart.1 (still es apart.0 here.1) in
      omega (arith, first_moved, rest)
    where
      still :
          (es : List Entry)
          → All (λ y. same_entry e y ≡ false) es
          → All (λ y. occurs y (job_set.members db.delayed) ≡ true) es
          → All (λ y. occurs y (job_set.members (move_due S e db).delayed) ≡ true) es
      still [] a h = tt
      still (y ∷ ys) a h = (
        rw (job_set.members-zrem e db.delayed)
            (occurs-without e y (job_set.members db.delayed) a.0 h.0),
        still ys a.1 h.1,
      )

  pub copies-move_due_jobs :
      (now : ℕ) (db : Db S) → copies (move_all S (due_jobs S now db) db) ≤ copies db
  copies-move_due_jobs now db =
      copies-move_all (due_jobs S now db) db
        (members_until-Apart now (job_set.members db.delayed) (job_set.members_distinct db.delayed))
        (members_until-occurs now (job_set.members db.delayed))
