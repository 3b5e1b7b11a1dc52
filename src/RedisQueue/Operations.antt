-- ===== src/RedisQueue/Operations.antt =====
-- The methods of `RedisQueue`, for one queue, with the failures of the connection.
use route_mq.Prelude.{
  ℕ, ◌+◌, Bool, true, false, Option, none, some, List, [], ◌∷◌, ltb, leb, ◌==◌, first,
  if◌then◌else◌,
}
use route_mq.Text.{String}
use route_mq.Redis.{last, members_until}
use route_mq.DatabaseQueue.{Popped, Reply, returns, raises, seconds}
use route_mq.RedisQueue.{
  Entry, FailedEntry, Storage, Fault, answered, lost_request, lost_reply, Db, World,
}

-- `_reserved_job_expired`
unfoldable pub reserved_job_expired : ℕ → ℕ → Option ℕ → Bool
reserved_job_expired now visibility none = true
reserved_job_expired now visibility (some t) = leb (t + seconds visibility) now

module _ (S : Storage) where
  open S use {
    jobs as job_list, failed_jobs as failed_list, delayed_jobs as job_set, failed_table, decode,
  }

  abbrev pub Act : Type 0 → Type 0
  Act A = World S → Reply A × World S

  abbrev pub pure : {A : Type 0} → A → Act A
  pure a w = (returns a, w)

  abbrev pub bound : {A B : Type 0} → (A → Act B) → Reply A × World S → Reply B × World S
  bound f (returns a, w) = f a w
  bound f (raises, w) = (raises, w)

  infixl 5 ◌>>=◌ ◌>>◌
  abbrev ◌>>=◌ : {A B : Type 0} → Act A → (A → Act B) → Act B
  ◌>>=◌ m f w = bound f (m w)

  abbrev ◌>>◌ : {A B : Type 0} → Act A → Act B → Act B
  ◌>>◌ m k w = bound (λ a. k) (m w)

  -- An `except` that returns a value.
  abbrev pub recovered : {A : Type 0} → A → Reply A × World S → Reply A × World S
  recovered a (returns b, w) = (returns b, w)
  recovered a (raises, w) = (returns a, w)

  abbrev pub or_else : {A : Type 0} → Act A → A → Act A
  or_else m a w = recovered a (m w)

  abbrev pub carried : {A : Type 0} → Fault → A × Db S → World S → Reply A × World S
  carried answered (a, db) w = (returns a, record { db = db; commands = w.commands + 1 })
  carried lost_request (a, db) w = (raises, record w { commands = w.commands + 1 })
  carried lost_reply (a, db) w = (raises, record { db = db; commands = w.commands + 1 })

  abbrev pub ready_jobs : Db S → List Entry
  ready_jobs db = job_list.items db.ready

  abbrev pub reserved_jobs : Db S → List Entry
  reserved_jobs db = job_list.items db.reserved

  abbrev pub failed_entries : Db S → List FailedEntry
  failed_entries db = failed_list.items db.failed

  abbrev pub push_ready : Entry → Db S → Db S
  push_ready e db = record db { ready = job_list.rpush e db.ready }

  abbrev pub push_reserved : Entry → Db S → Db S
  push_reserved e db = record db { reserved = job_list.rpush e db.reserved }

  abbrev pub drop_reserved : Entry → Db S → Db S
  drop_reserved e db = record db { reserved = job_list.lrem e db.reserved }

  abbrev pub add_delayed : Entry → ℕ → Db S → Db S
  add_delayed e t db = record db { delayed = job_set.zadd e t db.delayed }

  -- RPOPLPUSH queue reserved
  abbrev pub moved_last : Option Entry → Db S → Option Entry × Db S
  moved_last none db = (none, db)
  moved_last (some e) db = (
    some e,
    record db { ready = job_list.rpop db.ready; reserved = job_list.lpush e db.reserved },
  )

  abbrev pub move_last : Db S → Option Entry × Db S
  move_last db = moved_last (last (ready_jobs db)) db

  abbrev pub move_due : Entry → Db S → Db S
  move_due e db = record db {
    ready = job_list.rpush e db.ready;
    delayed = job_set.zrem e db.delayed;
  }

  -- The pipeline of `_migrate_delayed_jobs`, which is one transaction.
  abbrev pub move_all : List Entry → Db S → Db S
  move_all [] db = db
  move_all (e ∷ es) db = move_all es (move_due e db)

  abbrev pub due_jobs : ℕ → Db S → List Entry
  due_jobs now db = members_until now (job_set.members db.delayed)

  module _ (enabled : Bool) (faults : ℕ → Fault) where
    abbrev pub command : {A : Type 0} → (Db S → A × Db S) → Act A
    command f w = carried (faults w.commands) (f w.db) w

    abbrev pub write : (Db S → Db S) → Act Unit
    write f = command (λ db. (tt, f db))

    abbrev pub read : {A : Type 0} → (Db S → A) → Act A
    read f = command (λ db. (f db, db))

    abbrev pub new_entry : String → ℕ → ℕ → Entry
    new_entry payload stamp created = record {
      id = stamp;
      payload = payload;
      attempts = 0;
      created_at = created;
      reserved_at = none;
    }

    -- To the delayed jobs, or to the waiting ones.
    abbrev pub put_back : Entry → ℕ → ℕ → Act Unit
    put_back e delay now =
        if ltb 0 delay then write (add_delayed e (now + seconds delay)) else write (push_ready e)

    unfoldable pub push : String → ℕ → ℕ → ℕ → ℕ → Act Unit
    push payload delay stamp created now w =
        if enabled then put_back (new_entry payload stamp created) delay now w else (raises, w)

    abbrev pub move_found : List Entry → Act Unit
    move_found [] = pure tt
    move_found (e ∷ es) = write (move_all (e ∷ es))

    abbrev pub find_due : ℕ → Act Unit
    find_due now = read (due_jobs now) >>= move_found

    -- `_migrate_delayed_jobs`
    unfoldable pub migrate_delayed_jobs : ℕ → Act Unit
    migrate_delayed_jobs now w = if enabled then or_else (find_due now) tt w else (returns tt, w)

    abbrev pub taken : ℕ → Entry → Entry
    taken now e = record e { attempts = e.attempts + 1; reserved_at = some now }

    abbrev pub popped : Entry → Popped
    popped e = record { id = e.id; payload = e.payload; attempts = e.attempts }

    abbrev pub keep_reserved : {A : Type 0} → Entry → A → Act A
    keep_reserved e a = write (push_reserved e) >> pure a

    abbrev pub claim : ℕ → Option Entry → Act (Option Popped)
    claim now none = pure none
    claim now (some e) =
        write (drop_reserved e) >> keep_reserved (taken now e) (some (popped (taken now e)))

    abbrev pub take_last : ℕ → Act (Option Popped)
    take_last now = command move_last >>= claim now

    unfoldable pub pop : ℕ → ℕ → Act (Option Popped)
    unfolding migrate_delayed_jobs
    pop now later w =
        if enabled
        then or_else (migrate_delayed_jobs now >> take_last later) none w
        else (returns none, w)

    abbrev pub find_job : ℕ → List Entry → Option Entry
    find_job id = first (λ e. e.id == id)

    abbrev pub unreserved : Entry → Entry
    unreserved e = record e { reserved_at = none }

    abbrev pub release_found : ℕ → ℕ → Option Entry → Act Unit
    release_found delay now none = pure tt
    release_found delay now (some e) = write (drop_reserved e) >> put_back (unreserved e) delay now

    unfoldable pub release : ℕ → ℕ → ℕ → Act Unit
    release id delay now w =
        if enabled
        then ((read reserved_jobs >>= λ es. release_found delay now (find_job id es)) w)
        else (returns tt, w)

    abbrev pub delete_found : Option Entry → Act Unit
    delete_found none = pure tt
    delete_found (some e) = write (drop_reserved e)

    unfoldable pub delete : ℕ → Act Unit
    delete id w =
        if enabled
        then ((read reserved_jobs >>= λ es. delete_found (find_job id es)) w)
        else (returns tt, w)

    abbrev pub beat_found : ℕ → Option Entry → Act Bool
    beat_found now none = pure false
    beat_found now (some e) =
        write (drop_reserved e) >> keep_reserved (record e { reserved_at = some now }) true

    unfoldable pub heartbeat : ℕ → ℕ → Act Bool
    heartbeat id now w =
        if enabled
        then ((read reserved_jobs >>= λ es. beat_found now (find_job id es)) w)
        else (returns false, w)
