-- ===== src/DatabaseQueue/Failed.antt =====
-- The methods of `DatabaseQueue` on failed jobs.
pub mod Retry
use route_mq.Prelude.{
  ℕ, zero, suc, ◌+◌, Bool, true, false, not, Option, none, some, List, [], ◌∷◌, ◌==◌, length,
  select, first, if◌then◌else◌,
}
use text.Mathlib.Text.{◌==◌ as str_eq}
use route_mq.Text.{String}
use route_mq.Sql.{Keyed}
use route_mq.DatabaseQueue.{
  FailedJob, Backend, disabled, no_session, failing, failing_refresh, working, Reply, returns,
  raises, Storage,
}
use route_mq.DatabaseQueue.Operations.{Db, failed_rows, push}

-- `None` stands for every queue.
abbrev pub of_queue : Option String → Keyed FailedJob → Bool
of_queue none r = true
of_queue (some q) r = str_eq r.columns.queue q

-- The states of the backend during the three sessions of `retry_failed_job`.
pub record Sessions : Type 0 where
  pub looks_up : Backend
  pub pushes : Backend
  pub forgets : Backend

module _ (S : Storage) where
  open S use {failed_jobs as failed_table}

  unfoldable pub list_failed_jobs : Backend → Option String → Db S → Reply (List (Keyed FailedJob))
  list_failed_jobs disabled queue db = returns []
  list_failed_jobs no_session queue db = raises
  list_failed_jobs failing queue db = raises
  list_failed_jobs _ queue db = returns (select (of_queue queue) (failed_rows S db))

  unfoldable pub get_failed_job : Backend → ℕ → Db S → Reply (Option (Keyed FailedJob))
  get_failed_job disabled id db = returns none
  get_failed_job no_session id db = raises
  get_failed_job failing id db = raises
  get_failed_job _ id db = returns (first (λ r. r.id == id) (failed_rows S db))

  abbrev pub remove_failed : ℕ → Db S → Db S
  remove_failed id db = record db {
    failed_jobs = failed_table.delete (λ r. r.id == id) db.failed_jobs;
  }

  abbrev pub forget_found : ℕ → Db S → Option (Keyed FailedJob) → Reply Bool × Db S
  forget_found id db none = (returns false, db)
  forget_found id db (some r) = (returns true, remove_failed r.id db)

  unfoldable pub forget_failed_job : Backend → ℕ → Db S → Reply Bool × Db S
  forget_failed_job disabled id db = (returns false, db)
  forget_failed_job no_session id db = (raises, db)
  forget_failed_job failing id db = (raises, db)
  forget_failed_job _ id db = forget_found id db (first (λ r. r.id == id) (failed_rows S db))

  abbrev pub forget_after : Backend → ℕ → Reply Unit × Db S → Reply Bool × Db S
  forget_after b id (raises, db) = (raises, db)
  forget_after b id (returns u, db) = forget_failed_job b id db

  abbrev pub retry_found :
      Backend → Backend → ℕ → ℕ → ℕ → Db S → Reply (Option (Keyed FailedJob)) → Reply Bool × Db S
  retry_found pushes forgets id now created db raises = (raises, db)
  retry_found pushes forgets id now created db (returns none) = (returns false, db)
  retry_found pushes forgets id now created db (returns (some r)) =
      forget_after forgets id (push S pushes r.columns.payload r.columns.queue 0 now created db)

  unfoldable pub retry_failed_job : Sessions → ℕ → ℕ → ℕ → Db S → Reply Bool × Db S
  unfolding push get_failed_job forget_failed_job
  retry_failed_job b id now created db =
      retry_found b.pushes b.forgets id now created db (get_failed_job b.looks_up id db)

  unfoldable pub flush_failed_jobs : Backend → Option String → Db S → Reply ℕ × Db S
  flush_failed_jobs disabled queue db = (returns 0, db)
  flush_failed_jobs no_session queue db = (raises, db)
  flush_failed_jobs failing queue db = (raises, db)
  flush_failed_jobs _ queue db = (
    returns (length (select (of_queue queue) (failed_rows S db))),
    record db { failed_jobs = failed_table.delete (of_queue queue) db.failed_jobs },
  )
