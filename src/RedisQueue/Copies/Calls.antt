-- ===== src/RedisQueue/Copies/Calls.antt =====
-- Each call of `RedisQueue` keeps the number of copies of a job from growing, whatever fails.
use route_mq.Prelude.{
  true, false, if◌then◌else◌, Bool, ℕ, ◌+◌, ◌≤◌, ◌≡◌, refl, inl, inr, Bool, Option, none, some,
  List, ◌∷◌, ◌++◌, arith, ltb, first-cases, Bool-cases, ◌==◌,
}
use route_mq.DatabaseQueue.{Reply, returns, raises}
use route_mq.RedisQueue.{Entry, Storage, Fault, answered, lost_request, lost_reply, Db, World}
use route_mq.RedisQueue.Operations.{
  Act, bound, recovered, or_else, carried, reserved_jobs, push_ready, drop_reserved, add_delayed,
  write, read, put_back, find_job,
}
use route_mq.RedisQueue.Copies.Texts.{weight}
use route_mq.RedisQueue.Copies.Moves.{
  copies, copies-push_ready, copies-drop_reserved, copies-add_delayed,
}

module _ (S : Storage) (i : ℕ) where
  abbrev held : World S → ℕ
  held w = copies S i w.db

  -- A call adds at most so many copies.
  abbrev pub Adds : {A : Type 0} → ℕ → Act S A → Type 0
  Adds n m = (w : World S) → held (m w).1 ≤ held w + n

  pub carried-Adds :
      {A : Type 0} (n : ℕ) (fault : Fault) (p : A × Db S) (w : World S)
      → copies S i p.1 ≤ held w + n
      → held (carried S fault p w).1 ≤ held w + n
  carried-Adds n answered p w h = h
  carried-Adds n lost_request p w h = omega arith
  carried-Adds n lost_reply p w h = h

  pub bound-Adds :
      {A B : Type 0} (n : ℕ) (f : A → Act S B)
      → ((a : A) → Adds n (f a))
      → (p : Reply A × World S) → held (bound S f p).1 ≤ held p.1 + n
  bound-Adds n f h (returns a, w) = h a w
  bound-Adds n f h (raises, w) = omega arith

  recovered-Adds :
      {A : Type 0} (a : A) (p : Reply A × World S) → held (recovered S a p).1 ≡ held p.1
  recovered-Adds a (returns b, w) = refl
  recovered-Adds a (raises, w) = refl

  -- After a call that adds none.
  pub then-Adds :
      {A B : Type 0} (n : ℕ) (m : Act S A) (f : A → Act S B)
      → Adds 0 m
      → ((a : A) → Adds n (f a))
      → (w : World S) → held (bound S f (m w)).1 ≤ held w + n
  then-Adds n m f h k w =
      let before = h w in let after = bound-Adds n f k (m w) in omega (arith, before, after)

  pub or_else-Adds : {A : Type 0} (n : ℕ) (m : Act S A) (a : A) → Adds n m → Adds n (or_else S m a)
  or_else-Adds n m a h w =
      let same = recovered-Adds a (m w) in let here = h w in omega (arith, same, here)

  pub if-Adds :
      {A : Type 0} (n : ℕ) (b : Bool) (m k : Act S A)
      → Adds n m
      → Adds n k
      → Adds n (λ w. if b then m w else k w)
  if-Adds n true m k h l = h
  if-Adds n false m k h l = l

  module _ (enabled : Bool) (faults : ℕ → Fault) where
    pub read-Adds : {A : Type 0} (f : Db S → A) → Adds 0 (read S enabled faults f)
    read-Adds f w = carried-Adds 0 (faults w.commands) (f w.db, w.db) w (omega arith)

    pub write-Adds :
        (n : ℕ) (f : Db S → Db S)
        → ((db : Db S) → copies S i (f db) ≤ copies S i db + n)
        → Adds n (write S enabled faults f)
    write-Adds n f h w = carried-Adds n (faults w.commands) (tt, f w.db) w (h w.db)

    pub push_ready-Adds : (e : Entry) → Adds (weight i e) (write S enabled faults (push_ready S e))
    push_ready-Adds e =
        write-Adds (weight i e) (push_ready S e) (λ db. omega (arith, copies-push_ready S i e db))

    pub put_back-Adds :
        (e : Entry) (delay now : ℕ) → Adds (weight i e) (put_back S enabled faults e delay now)
    put_back-Adds e delay now w = elim (Bool-cases (ltb 0 delay)) [
      | inl later ↦
          rw later
            (write-Adds (weight i e) (add_delayed S e _) (λ db. copies-add_delayed S i e _ db) w)
      | inr at_once ↦ rw at_once (push_ready-Adds e w)
    ]

    -- Taking a job that is reserved off the list, and then a call that may put it back.
    pub drop-Adds :
        {B : Type 0} (e : Entry) (before after : List Entry) (k : Act S B)
        → Adds (weight i e) k
        → (w : World S) → reserved_jobs S w.db ≡ before ++ e ∷ after
        → held (bound S (λ (u : Unit). k) (write S enabled faults (drop_reserved S e) w)).1 ≤ held w
    drop-Adds e before after k h w found = dropped (faults w.commands)
      where
        gone : copies S i (drop_reserved S e w.db) + weight i e ≡ held w
        gone = copies-drop_reserved S i e w.db before after found

        dropped :
            (fault : Fault)
            → held (bound S (λ (u : Unit). k) (carried S fault (tt, drop_reserved S e w.db) w)).1
              ≤ held w
        dropped answered =
            let next = h (record { db = drop_reserved S e w.db; commands = w.commands + 1 }) in
            omega (arith, gone, next)
        dropped lost_request = omega arith
        dropped lost_reply = omega (arith, gone)

    -- A call that looks a reserved job up and goes on with it.
    pub found-Adds :
        {B : Type 0} (id : ℕ) (k : Option Entry → Act S B)
        → Adds 0 (k none)
        → ((e : Entry) (before after : List Entry) (w : World S)
            → reserved_jobs S w.db ≡ before ++ e ∷ after
            → held (k (some e) w).1 ≤ held w)
        → Adds 0 (λ w.
          bound S
            (λ es. k (find_job S enabled faults id es))
            (read S enabled faults (reserved_jobs S) w))
    found-Adds id k missing there w = looked_up (faults w.commands)
      where
        next : World S
        next = record { db = w.db; commands = w.commands + 1 }

        taken_up :
            (o : Option Entry)
            → find_job S enabled faults id (reserved_jobs S w.db) ≡ o
            → held (k o next).1 ≤ held w + 0
        taken_up none e = missing next
        taken_up (some x) e = elim (first-cases (λ e. e.id == id) (reserved_jobs S w.db)) [
          | inl (absent, _) ↦ absurd (ground (arith, e, absent))
          | inr (before, y, after, found, split, passed, hit) ↦
              let same : x ≡ y = cc in
              let bound_y = there y before after next split in rw same (omega (arith, bound_y))
        ]

        looked_up :
            (fault : Fault)
            → held
                (bound S
                  (λ es. k (find_job S enabled faults id es))
                  (carried S fault (reserved_jobs S w.db, w.db) w)).1
              ≤ held w + 0
        looked_up answered = taken_up _ refl
        looked_up lost_request = omega arith
        looked_up lost_reply = omega arith
