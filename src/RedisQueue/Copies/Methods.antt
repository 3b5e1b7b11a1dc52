-- ===== src/RedisQueue/Copies/Methods.antt =====
-- The calls of `RedisQueue` one by one: none but `push` adds copies of a job.
use route_mq.Prelude.{
  ℕ, ◌+◌, ◌≤◌, ◌≡◌, refl, subst, inl, inr, Bool, true, Option, none, some, List, [], ◌∷◌, arith,
  if◌then◌else◌, Bool-cases, ◌==◌,
}
use route_mq.Text.{String}
use route_mq.DatabaseQueue.{Popped}
use route_mq.Redis.{last}
use route_mq.RedisQueue.{Entry, Storage, Fault, answered, lost_request, lost_reply, World}
use route_mq.RedisQueue.Operations.{
  Act, pure, bound, or_else, carried, ready_jobs, reserved_jobs, push_reserved, drop_reserved,
  moved_last, move_last, move_all, due_jobs, write, new_entry, put_back, push, move_found,
  migrate_delayed_jobs, taken, popped, keep_reserved, find_due, take_last, claim, pop, unreserved,
  release_found, release, delete_found, delete, beat_found, heartbeat,
}
use route_mq.RedisQueue.Copies.Texts.{weight}
use route_mq.RedisQueue.Copies.Moves.{
  copies, copies-push_reserved, copies-drop_reserved, copies-move_last, copies-move_due_jobs,
}
use route_mq.RedisQueue.Copies.Calls.{
  Adds, if-Adds, if-Adds, then-Adds, or_else-Adds, write-Adds, put_back-Adds, drop-Adds, found-Adds,
  carried-Adds, bound-Adds,
}

module _ (S : Storage) (i : ℕ) (enabled : Bool) (faults : ℕ → Fault) where
  abbrev held : World S → ℕ
  held w = copies S i w.db

  pub push-Adds :
      (payload : String) (delay stamp created now : ℕ)
      → Adds S i
          (if stamp == i then 1 else 0)
          (push S enabled faults payload delay stamp created now)
  unfolding push
  push-Adds payload delay stamp created now w = elim (Bool-cases enabled) [
    | inl on ↦ rw on (
        put_back-Adds S i enabled faults (new_entry S enabled faults payload stamp created) delay
          now w)
    | inr off ↦ rw off (omega arith)
  ]

  pub release-Adds : (id delay now : ℕ) → Adds S i 0 (release S enabled faults id delay now)
  unfolding release
  release-Adds id delay now w = elim (Bool-cases enabled) [
    | inl on ↦ rw on (
        found-Adds S i enabled faults id (release_found S enabled faults delay now)
          (λ w. omega arith)
          (λ e before after w split.
            drop-Adds S i enabled faults e before after
              (put_back S enabled faults (unreserved S enabled faults e) delay now)
              (put_back-Adds S i enabled faults (unreserved S enabled faults e) delay now) w split)
          w)
    | inr off ↦ rw off (omega arith)
  ]

  -- A push to the reserved jobs, and then a value.
  and_pure-Adds :
      {A : Type 0} (e : Entry) (a : A) → Adds S i (weight i e) (keep_reserved S enabled faults e a)
  and_pure-Adds e a w =
      let pushed =
        write-Adds S i enabled faults (weight i e) (push_reserved S e)
          (λ db. omega (arith, copies-push_reserved S i e db)) w in
      let after =
        bound-Adds S i 0 (λ (u : Unit). pure S a) (λ u w. omega arith)
          (write S enabled faults (push_reserved S e) w) in
      omega (arith, pushed, after)

  pub delete-Adds : (id : ℕ) → Adds S i 0 (delete S enabled faults id)
  unfolding delete
  delete-Adds id w = elim (Bool-cases enabled) [
    | inl on ↦ rw on (
        found-Adds S i enabled faults id (delete_found S enabled faults) (λ w. omega arith)
          (λ e before after w split.
            let gone = copies-drop_reserved S i e w.db before after split in
            let sent =
              carried-Adds S i 0 (faults w.commands) (tt, drop_reserved S e w.db) w
                (omega (arith, gone)) in
            omega (arith, sent))
          w)
    | inr off ↦ rw off (omega arith)
  ]

  pub heartbeat-Adds : (id now : ℕ) → Adds S i 0 (heartbeat S enabled faults id now)
  unfolding heartbeat
  heartbeat-Adds id now w = elim (Bool-cases enabled) [
    | inl on ↦ rw on (
        found-Adds S i enabled faults id (beat_found S enabled faults now) (λ w. omega arith)
          (λ e before after w split.
            drop-Adds S i enabled faults e before after
              (keep_reserved S enabled faults (record e { reserved_at = some now }) true)
              (and_pure-Adds (record e { reserved_at = some now }) true) w split)
          w)
    | inr off ↦ rw off (omega arith)
  ]

  find_due-Adds : (now : ℕ) → Adds S i 0 (find_due S enabled faults now)
  find_due-Adds now w = looked_up (faults w.commands)
    where
      next : World S
      next = record { db = w.db; commands = w.commands + 1 }

      moved :
          (es : List Entry)
          → due_jobs S now w.db ≡ es
          → held (move_found S enabled faults es next).1 ≤ held w + 0
      moved [] e = omega arith
      moved (x ∷ xs) e =
          let all = copies-move_due_jobs S i now w.db in
          let all' : copies S i (move_all S (x ∷ xs) w.db) ≤ copies S i w.db =
            subst (λ es. copies S i (move_all S es w.db) ≤ copies S i w.db) e all in
          carried-Adds S i 0 (faults next.commands) (tt, move_all S (x ∷ xs) w.db) next
            (omega (arith, all'))

      looked_up :
          (fault : Fault)
          → held
              (bound S
                (move_found S enabled faults)
                (carried S fault (due_jobs S now w.db, w.db) w)).1
            ≤ held w + 0
      looked_up answered = moved _ refl
      looked_up lost_request = omega arith
      looked_up lost_reply = omega arith

  migrate-Adds : (now : ℕ) → Adds S i 0 (migrate_delayed_jobs S enabled faults now)
  unfolding migrate_delayed_jobs
  migrate-Adds now w = elim (Bool-cases enabled) [
    | inl on ↦ rw on (or_else-Adds S i 0 (find_due S enabled faults now) tt (find_due-Adds now) w)
    | inr off ↦ rw off (omega arith)
  ]

  take_last-Adds : (now : ℕ) → Adds S i 0 (take_last S enabled faults now)
  take_last-Adds now w = sent (faults w.commands)
    where
      fewer : copies S i (move_last S w.db).1 ≤ copies S i w.db
      fewer = copies-move_last S i w.db

      moved :
          (o : Option Entry)
          → last (ready_jobs S w.db) ≡ o
          → held
              (bound S (claim S enabled faults now) (carried S answered (moved_last S o w.db) w)).1
            ≤ held w + 0
      moved none e = omega arith
      moved (some x) e =
          let fewer' : copies S i (moved_last S (some x) w.db).1 ≤ copies S i w.db =
            subst (λ o. copies S i (moved_last S o w.db).1 ≤ copies S i w.db) e fewer in
          let next : World S = record {
            db = (moved_last S (some x) w.db).1;
            commands = w.commands + 1;
          } in
          let claimed =
            drop-Adds S i enabled faults x [] (reserved_jobs S w.db)
              (keep_reserved S enabled faults (taken S enabled faults now x)
                (some (popped S enabled faults (taken S enabled faults now x))))
              (and_pure-Adds (taken S enabled faults now x)
                (some (popped S enabled faults (taken S enabled faults now x))))
              next (S.jobs.items-lpush x w.db.reserved) in
          omega (arith, claimed, fewer')

      sent :
          (fault : Fault)
          → held (bound S (claim S enabled faults now) (carried S fault (move_last S w.db) w)).1
            ≤ held w + 0
      sent answered = moved _ refl
      sent lost_request = omega arith
      sent lost_reply = omega (arith, fewer)

  pub pop-Adds : (now later : ℕ) → Adds S i 0 (pop S enabled faults now later)
  unfolding pop
  pop-Adds now later =
      let next = take_last S enabled faults later in
      let both : Act S (Option Popped) =
        λ w. bound S (λ (u : Unit). next) (migrate_delayed_jobs S enabled faults now w) in
      if-Adds S i 0 enabled (or_else S both none) (pure S none)
        (or_else-Adds S i 0 both none (
          then-Adds S i 0 (migrate_delayed_jobs S enabled faults now) (λ u. next) (migrate-Adds now)
            (λ u. take_last-Adds later)))
        (λ w. omega arith)
