-- ===== src/DatabaseQueue/Operations.antt =====
-- The methods of `DatabaseQueue`. A session that fails is rolled back: the tables stay as they were.
use route_mq.Prelude.{
  ℕ, ◌+◌, Bool, false, not, ◌&&◌, Option, none, some, List, ltb, ◌==◌, length, select, first,
}
use route_mq.Text.{String}
use route_mq.Sql.{Keyed}
use route_mq.DatabaseQueue.{
  Job, FailedJob, Popped, Backend, disabled, no_session, failing, failing_refresh, Reply, returns,
  raises, Storage, seconds, is_none, at_job, is_ready,
}

abbrev pub is_reserved : ℕ → String → Keyed Job → Bool
is_reserved id queue r = at_job id queue r && not (is_none r.columns.reserved_at)

-- `locked` are the rows that other sessions hold (SKIP LOCKED).
abbrev pub claimable : (ℕ → Bool) → String → ℕ → Keyed Job → Bool
claimable locked queue now r = is_ready queue now r && not (locked r.id)

abbrev pub popped : Keyed Job → Popped
popped j = record { id = j.id; payload = j.columns.payload; attempts = j.columns.attempts + 1 }

module _ (S : Storage) where
  open S use {jobs as job_table, failed_jobs as failed_table, decode}

  pub record Db : Type 0 where
    pub jobs : job_table.State
    pub failed_jobs : failed_table.State

  abbrev pub job_rows : Db → List (Keyed Job)
  job_rows db = job_table.rows db.jobs

  abbrev pub failed_rows : Db → List (Keyed FailedJob)
  failed_rows db = failed_table.rows db.failed_jobs

  abbrev pub new_job : String → String → ℕ → ℕ → ℕ → Job
  new_job payload queue delay now created = record {
    queue = queue;
    payload = payload;
    attempts = 0;
    reserved_at = none;
    available_at = now + seconds delay;
    created_at = created;
  }

  unfoldable pub push : Backend → String → String → ℕ → ℕ → ℕ → Db → Reply Unit × Db
  push disabled payload queue delay now created db = (raises, db)
  push no_session payload queue delay now created db = (raises, db)
  push failing payload queue delay now created db = (raises, db)
  push _ payload queue delay now created db = (
    returns tt,
    record db { jobs = job_table.insert (new_job payload queue delay now created) db.jobs },
  )

  abbrev pub next_job : (ℕ → Bool) → String → ℕ → Db → Option (Keyed Job)
  next_job locked queue now db = first (claimable locked queue now) (job_rows db)

  abbrev pub reserve : ℕ → ℕ → Db → Db
  reserve id later db = record db {
    jobs =
        job_table.update (λ r. r.id == id)
          (λ v. record v { reserved_at = some later; attempts = v.attempts + 1 }) db.jobs;
  }

  -- What `pop` does with the job that it finds; a refresh that fails comes after the commit.
  unfoldable pub claim : Backend → ℕ → Db → Option (Keyed Job) → Reply (Option Popped) × Db
  claim b later db none = (returns none, db)
  claim failing_refresh later db (some j) = (returns none, reserve j.id later db)
  claim _ later db (some j) = (returns (some (popped j)), reserve j.id later db)

  unfoldable pub pop : Backend → (ℕ → Bool) → String → ℕ → ℕ → Db → Reply (Option Popped) × Db
  unfolding claim
  pop disabled locked queue now later db = (returns none, db)
  pop no_session locked queue now later db = (raises, db)
  pop failing locked queue now later db = (returns none, db)
  pop b locked queue now later db = claim b later db (next_job locked queue now db)

  unfoldable pub release : Backend → ℕ → String → ℕ → ℕ → Db → Reply Unit × Db
  release disabled id queue delay now db = (returns tt, db)
  release no_session id queue delay now db = (raises, db)
  release failing id queue delay now db = (raises, db)
  release _ id queue delay now db = (
    returns tt,
    record db {
      jobs =
          job_table.update (at_job id queue)
            (λ v. record v { reserved_at = none; available_at = now + seconds delay }) db.jobs;
    },
  )

  unfoldable pub delete : Backend → ℕ → String → Db → Reply Unit × Db
  delete disabled id queue db = (returns tt, db)
  delete no_session id queue db = (raises, db)
  delete failing id queue db = (raises, db)
  delete _ id queue db =
      (returns tt, record db { jobs = job_table.delete (at_job id queue) db.jobs })

  unfoldable pub heartbeat : Backend → ℕ → String → ℕ → Db → Reply Bool × Db
  heartbeat disabled id queue now db = (returns false, db)
  heartbeat no_session id queue now db = (raises, db)
  heartbeat failing id queue now db = (raises, db)
  heartbeat _ id queue now db = (
    returns (ltb 0 (length (select (is_reserved id queue) (job_rows db)))),
    record db {
      jobs =
          job_table.update (is_reserved id queue) (λ v. record v { reserved_at = some now })
            db.jobs;
    },
  )

  abbrev pub add_failed : FailedJob → Db → Db
  add_failed f db = record db { failed_jobs = failed_table.insert f db.failed_jobs }

  unfoldable pub failed : Backend → FailedJob → Db → Reply Unit × Db
  failed disabled f db = (returns tt, db)
  failed no_session f db = (raises, db)
  failed failing f db = (raises, db)
  failed _ f db = (returns tt, add_failed f db)
