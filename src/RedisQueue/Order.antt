-- ===== src/RedisQueue/Order.antt =====
-- In which order `pop` takes the jobs, where every command is answered.
use route_mq.Prelude.{
  ℕ, ◌+◌, ◌≡◌, refl, sym, ap, ◌∙◌, true, none, some, List, [], ◌∷◌, ◌++◌, append-nil, map,
  append_assoc,
}
use route_mq.Text.{String}
use route_mq.Redis.{last, init, remove_first}
use route_mq.DatabaseQueue.{returns}
use route_mq.RedisQueue.{Entry, Storage, Db, World}
use route_mq.RedisQueue.Operations.{
  ready_jobs, moved_last, reserved_jobs, due_jobs, move_all, taken, popped, new_entry, take_last,
  pop, push,
}
use route_mq.RedisQueue.Copies.Texts.{same_entry_refl}
use route_mq.RedisQueue.Copies.History.{Call, pushes, pops, step, run}
use route_mq.RedisQueue.Due.{
  calm, later_members, move_all-ready, move_all-later, move_all-IsKept, migrate_delayed_jobs-calm,
}

last-append : {A : Type 0} (xs : List A) (x : A) → last (xs ++ x ∷ []) ≡ some x
last-append [] x = refl
last-append (y ∷ []) x = refl
last-append (y ∷ z ∷ zs) x = last-append (z ∷ zs) x

init-append : {A : Type 0} (xs : List A) (x : A) → init (xs ++ x ∷ []) ≡ xs
init-append [] x = refl
init-append (y ∷ []) x = refl
init-append (y ∷ z ∷ zs) x = ap (◌∷◌ y) (init-append (z ∷ zs) x)

-- A job is pushed without a delay, and then one is popped.
pub record Round : Type 0 where
  pub payload : String
  pub stamp : ℕ
  pub created : ℕ
  pub pushed_at : ℕ
  pub now : ℕ
  pub later : ℕ

abbrev pub calls : List Round → List Call
calls [] = []
calls (r ∷ rs) = pushes r.payload 0 r.stamp r.created r.pushed_at ∷ pops r.now r.later ∷ calls rs

module _ (S : Storage) where
  open S use {jobs as job_list, delayed_jobs as job_set}

  -- The jobs that `pop` chooses from: those that wait, and then those that are due.
  abbrev pub waiting : ℕ → Db S → List Entry
  waiting now db = ready_jobs S db ++ due_jobs S now db

  -- The keys after `pop` has taken a job: the other waiting jobs, and the job with its new
  -- attempt after the jobs that were reserved.
  pub record IsTaken (now later : ℕ) (e : Entry) (others : List Entry) (old new : Db S)
      : Type 0 where
    pub ready : ready_jobs S new ≡ others
    pub reserved : reserved_jobs S new ≡ reserved_jobs S old ++ taken S true calm later e ∷ []
    pub delayed : job_set.members new.delayed ≡ later_members now (job_set.members old.delayed)
    pub failed : new.failed ≡ old.failed
    pub table : new.table ≡ old.table

  -- The world after RPOPLPUSH, LREM and RPUSH have moved the last waiting job.
  moved : ℕ → Entry → World S → World S
  moved later e w = record {
    db = record w.db {
      ready = job_list.rpop w.db.ready;
      reserved =
          job_list.rpush (taken S true calm later e)
            (job_list.lrem e (job_list.lpush e w.db.reserved));
    };
    commands = w.commands + 1 + 1 + 1;
  }

  take_last-calm :
      (later : ℕ) (w : World S) (e : Entry)
      → last (ready_jobs S w.db) ≡ some e
      → take_last S true calm later w
        ≡ (returns (some (popped S true calm (taken S true calm later e))), moved later e w)
  unfolding moved
  take_last-calm later w e h = rw (h, moved_last) refl

  moved-reserved :
      (later : ℕ) (e : Entry) (w : World S)
      → reserved_jobs S (moved later e w).db
        ≡ reserved_jobs S w.db ++ taken S true calm later e ∷ []
  unfolding moved
  moved-reserved later e w =
      rw
        (job_list.items-rpush (taken S true calm later e)
          (job_list.lrem e (job_list.lpush e w.db.reserved)))
        (rw (job_list.items-lrem e (job_list.lpush e w.db.reserved))
          (rw (job_list.items-lpush e w.db.reserved) (rw (same_entry_refl e, remove_first) refl)))

  moved-ready :
      (later : ℕ) (e : Entry) (w : World S) (others : List Entry)
      → ready_jobs S w.db ≡ others ++ e ∷ []
      → ready_jobs S (moved later e w).db ≡ others
  unfolding moved
  moved-ready later e w others h = rw (job_list.items-rpop w.db.ready) (rw h (init-append others e))

  -- Where every command is answered, `pop` takes the last of the jobs that wait or are due.
  pub pop-newest :
      (now later : ℕ) (w : World S) (others : List Entry) (e : Entry)
      → waiting now w.db ≡ others ++ e ∷ []
      → (pop S true calm now later w).0
          ≡ returns (some (popped S true calm (taken S true calm later e)))
        × IsTaken now later e others w.db (pop S true calm now later w).1.db
  unfolding pop moved
  pop-newest now later w others e h =
      let (n, migrated) = migrate_delayed_jobs-calm S now w in
      let due = due_jobs S now w.db in
      let next : World S = record { db = move_all S due w.db; commands = n } in
      let waits : ready_jobs S next.db ≡ others ++ e ∷ [] = move_all-ready S due w.db ∙ h in
      let kept = move_all-IsKept S due w.db in
      let found : last (ready_jobs S next.db) ≡ some e = rw waits (last-append others e) in
      rw migrated (
        rw (take_last-calm later next e found) (
          refl,
          record {
            ready = moved-ready later e next others waits;
            reserved =
                moved-reserved later e next
                ∙ ap (λ s. job_list.items s ++ taken S true calm later e ∷ []) kept.reserved;
            delayed = move_all-later S now w.db;
            failed = kept.failed;
            table = kept.table;
          },
        ))

  -- Where every command is answered and no job waits or is due, `pop` takes none.
  pub pop-empty :
      (now later : ℕ) (w : World S)
      → waiting now w.db ≡ []
      → (pop S true calm now later w).0 ≡ returns none
  unfolding pop
  pop-empty now later w h =
      let (n, migrated) = migrate_delayed_jobs-calm S now w in
      let waits : ready_jobs S (move_all S (due_jobs S now w.db) w.db) ≡ [] =
        move_all-ready S (due_jobs S now w.db) w.db ∙ h in
      rw migrated (rw (waits, moved_last) refl)

  -- The job of a round as it is reserved.
  abbrev pub served : Round → Entry
  served r = taken S true calm r.later (new_entry S true calm r.payload r.stamp r.created)

  pushed_on : Round → World S → World S
  pushed_on r w = record {
    db = record w.db {
      ready = job_list.rpush (new_entry S true calm r.payload r.stamp r.created) w.db.ready;
    };
    commands = w.commands + 1;
  }

  round-IsTaken :
      (r : Round) (w : World S)
      → job_set.members w.db.delayed ≡ []
      → IsTaken r.now r.later
          (new_entry S true calm r.payload r.stamp r.created)
          (ready_jobs S w.db)
          (pushed_on r w).db
          (pop S true calm r.now r.later (pushed_on r w)).1.db
  unfolding pushed_on
  round-IsTaken r w h =
      let e = new_entry S true calm r.payload r.stamp r.created in
      let waits : waiting r.now (pushed_on r w).db ≡ ready_jobs S w.db ++ e ∷ [] = rw h (
        append-nil (job_list.items (job_list.rpush e w.db.ready))
        ∙ job_list.items-rpush e w.db.ready) in
      (pop-newest r.now r.later (pushed_on r w) (ready_jobs S w.db) e waits).1

  -- Where every command is answered and no job is delayed, each round pops the job that it has
  -- pushed, and the jobs that waited before wait still, however many rounds there are.
  pub run-starves :
      (rs : List Round) (w : World S)
      → job_set.members w.db.delayed ≡ []
      → (ready_jobs S (run S true calm (calls rs) w).db ≡ ready_jobs S w.db)
        × (reserved_jobs S (run S true calm (calls rs) w).db
            ≡ reserved_jobs S w.db ++ map served rs)
  unfolding run step push pushed_on
  run-starves [] w h = (refl, sym (append-nil (reserved_jobs S w.db)))
  run-starves (r ∷ rs) w h =
      let here = round-IsTaken r w h in
      let none_left = here.delayed ∙ ap (later_members r.now) h in
      let (waits, served_so_far) =
        run-starves rs (pop S true calm r.now r.later (pushed_on r w)).1 none_left in
      (
        waits ∙ here.ready,
        served_so_far
            ∙ ap (λ es. es ++ map served rs) here.reserved
            ∙ append_assoc (reserved_jobs S w.db) (served r ∷ []) (map served rs),
      )
