-- ===== src/RedisQueue/Failed.antt =====
-- The failed jobs of `RedisQueue`, and its reaper.
use route_mq.Prelude.{
  ℕ, ◌+◌, Bool, true, false, Option, none, some, List, [], ◌∷◌, ◌==◌, length, first, if◌then◌else◌,
  ◌-◌,
}
use route_mq.DatabaseQueue.{FailedJob, Stats, returns}
use route_mq.DatabaseQueue.Reaper.{empty_stats}
use route_mq.RedisQueue.{Entry, FailedEntry, Storage, Fault, Db}
use route_mq.RedisQueue.Operations.{
  Act, pure, bound, or_else, ready_jobs, reserved_jobs, failed_entries, read, write, command, push,
}

module _ (S : Storage) (enabled : Bool) (faults : ℕ → Fault) where
  open S use {failed_jobs as failed_list, delayed_jobs as job_set, failed_table, decode}

  abbrev pub ask : {A : Type 0} → (Db S → A) → Act S A
  ask f = read S enabled faults f

  abbrev pub tell : (Db S → Db S) → Act S Unit
  tell f = write S enabled faults f

  infixl 5 ◌>>=◌ ◌>>◌
  abbrev ◌>>=◌ : {A B : Type 0} → Act S A → (A → Act S B) → Act S B
  ◌>>=◌ m f w = bound S f (m w)

  abbrev ◌>>◌ : {A B : Type 0} → Act S A → Act S B → Act S B
  ◌>>◌ m k w = bound S (λ a. k) (m w)

  abbrev pub add_row : FailedJob → Db S → Db S
  add_row f db = record db { table = failed_table.insert f db.table }

  abbrev pub add_failed : FailedEntry → Db S → Db S
  add_failed f db = record db { failed = failed_list.rpush f db.failed }

  -- `model_enabled` says whether the database integration is on. Its session counts as a command.
  abbrev pub store_failed : Bool → FailedJob → ℕ → Act S Unit
  store_failed model_enabled f stamp =
      if model_enabled
      then tell (add_row f)
      else if enabled
      then tell (add_failed (record { id = stamp; job = f }))
      else pure S tt

  unfoldable pub failed : Bool → FailedJob → ℕ → Act S Unit
  failed model_enabled f stamp = or_else S (store_failed model_enabled f stamp) tt

  -- For the queue; without a queue the answer is the empty list.
  unfoldable pub list_failed_jobs : Act S (List FailedEntry)
  list_failed_jobs w = if enabled then ask (failed_entries S) w else (returns [], w)

  abbrev pub find_failed : ℕ → List FailedEntry → Option FailedEntry
  find_failed id = first (λ f. f.id == id)

  unfoldable pub get_failed_job : ℕ → Act S (Option FailedEntry)
  unfolding list_failed_jobs
  get_failed_job id = list_failed_jobs >>= λ fs. pure S (find_failed id fs)

  abbrev pub remove_failed : FailedEntry → Db S → Db S
  remove_failed f db = record db { failed = failed_list.lrem f db.failed }

  abbrev pub forget_found : Option FailedEntry → Act S Bool
  forget_found none = pure S false
  forget_found (some f) = tell (remove_failed f) >> pure S true

  unfoldable pub forget_failed_job : ℕ → Act S Bool
  forget_failed_job id w =
      if enabled
      then ((ask (failed_entries S) >>= λ fs. forget_found (find_failed id fs)) w)
      else (returns false, w)

  abbrev pub retry_found : ℕ → ℕ → ℕ → ℕ → Option FailedEntry → Act S Bool
  retry_found id stamp created now none = pure S false
  retry_found id stamp created now (some f) =
      push S enabled faults f.job.payload 0 stamp created now >> forget_failed_job id

  unfoldable pub retry_failed_job : ℕ → ℕ → ℕ → ℕ → Act S Bool
  unfolding get_failed_job forget_failed_job push
  retry_failed_job id stamp created now = get_failed_job id >>= retry_found id stamp created now

  abbrev pub count_key : List FailedEntry → ℕ
  count_key [] = 0
  count_key (f ∷ fs) = 1

  abbrev pub clear_failed : Db S → ℕ × Db S
  clear_failed db =
      (count_key (failed_entries S db), record db { failed = failed_list.clear db.failed })

  unfoldable pub flush_failed_jobs : Act S ℕ
  flush_failed_jobs w = if enabled then command S enabled faults clear_failed w else (returns 0, w)

  abbrev pub waiting_size : Db S → ℕ
  waiting_size db = length (ready_jobs S db)

  abbrev pub delayed_size : Db S → ℕ
  delayed_size db = length (job_set.members db.delayed)

  unfoldable pub size : Act S ℕ
  size w =
      if enabled
      then or_else S (ask waiting_size >>= λ n. ask delayed_size >>= λ m. pure S (n + m)) 0 w
      else (returns 0, w)

  -- In microseconds; `created_at` is always there.
  abbrev pub oldest_age : ℕ → List Entry → ℕ
  oldest_age now [] = 0
  oldest_age now (e ∷ es) = now - e.created_at

  unfoldable pub stats : ℕ → Act S Stats
  stats now w =
      if enabled
      then or_else S
          (do
            ready ← ask waiting_size
            reserved ← ask (λ db. length (reserved_jobs S db))
            delayed ← ask delayed_size
            failed ← ask (λ db. length (failed_entries S db))
            age ← ask (λ db. oldest_age now (ready_jobs S db))
            pure S (record {
              ready = ready;
              reserved = reserved;
              delayed = delayed;
              failed = failed;
              oldest_ready_age = age;
            }))
          empty_stats w
      else (returns empty_stats, w)
