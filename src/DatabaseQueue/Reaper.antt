-- ===== src/DatabaseQueue/Reaper.antt =====
-- `reap_expired`, `size` and `stats` of `DatabaseQueue`.
pub mod Outcome
pub mod Counts
use route_mq.Prelude.{Option-cases, Bool-cases, inl, inr}
use route_mq.Prelude.{
  ℕ, zero, suc, ◌+◌, ◌-◌, Bool, true, false, not, ◌&&◌, Option, none, some, List, [], ◌∷◌, ltb, leb,
  ◌==◌, length, select, min, if◌then◌else◌,
}
use text.Mathlib.Text.{◌==◌ as str_eq}
use route_mq.Text.{String}
use route_mq.Sql.{Keyed}
use route_mq.DatabaseQueue.{
  Job, FailedJob, Stats, Backend, disabled, no_session, failing, failing_refresh, working, Reply,
  returns, raises, payload_max_tries, Storage, is_none, is_expired,
}
use route_mq.DatabaseQueue.Operations.{Db, job_rows, failed_rows, add_failed}

-- The arguments of one run of the reaper, with its reading of the clock; `message` is the text
-- "Job reservation expired after {visibility}s visibility timeout".
pub record Reaping : Type 0 where
  pub queue : String
  pub visibility : ℕ
  pub now : ℕ
  pub message : String

abbrev pub unreserved : String → Keyed Job → Bool
unreserved queue j = str_eq j.columns.queue queue && is_none j.columns.reserved_at

abbrev pub ready_jobs : ℕ → List (Keyed Job) → List (Keyed Job)
ready_jobs now = select λ j. is_none j.columns.reserved_at && leb j.columns.available_at now

abbrev pub delayed_jobs : ℕ → List (Keyed Job) → List (Keyed Job)
delayed_jobs now = select λ j. is_none j.columns.reserved_at && ltb now j.columns.available_at

abbrev pub reserved_jobs : List (Keyed Job) → List (Keyed Job)
reserved_jobs = select λ j. not (is_none j.columns.reserved_at)

abbrev oldest : ℕ → List (Keyed Job) → ℕ
oldest t [] = t
oldest t (j ∷ js) = oldest (min t j.columns.created_at) js

-- In microseconds; `created_at` is never NULL.
abbrev pub oldest_ready_age : ℕ → List (Keyed Job) → ℕ
oldest_ready_age now [] = 0
oldest_ready_age now (j ∷ js) = now - oldest j.columns.created_at js

abbrev pub empty_stats : Stats
empty_stats = record { ready = 0; reserved = 0; delayed = 0; failed = 0; oldest_ready_age = 0 }

module _ (S : Storage) where
  open S use {jobs as job_table, failed_jobs as failed_table, decode}

  abbrev pub expired_job : Reaping → Job → FailedJob
  expired_job r j = record {
    connection = "database";
    queue = r.queue;
    payload = j.payload;
    exception = r.message;
    failed_at = r.now;
  }

  -- A job that has used its tries moves to the failed jobs, any other is made available again.
  abbrev pub give_up : Reaping → Keyed Job → Db S → Db S
  give_up r j db = record db {
    jobs = job_table.delete (λ x. x.id == j.id) db.jobs;
    failed_jobs = failed_table.insert (expired_job r j.columns) db.failed_jobs;
  }

  abbrev pub give_back : Reaping → Keyed Job → Db S → Db S
  give_back r j db = record db {
    jobs =
        job_table.update (λ x. x.id == j.id)
          (λ v. record v { reserved_at = none; available_at = r.now }) db.jobs;
  }

  -- `none` is an exception.
  unfoldable pub reap_job : Reaping → Keyed Job → Db S → Option (Db S)
  reap_job r j db = elim (payload_max_tries (decode j.columns.payload)) [
    | none ↦ none
    | some tries ↦ some (if leb tries j.columns.attempts then give_up r j db else give_back r j db)
  ]

  unfoldable pub reap_jobs : Reaping → List (Keyed Job) → Db S → Option (Db S)
  unfolding reap_job
  reap_jobs r [] db = some db
  reap_jobs r (j ∷ js) db = elim (reap_job r j db) [ none ↦ none | some db' ↦ reap_jobs r js db' ]

  abbrev pub expired_jobs : Reaping → Db S → List (Keyed Job)
  expired_jobs r db = select (is_expired r.queue r.visibility r.now) (job_rows S db)

  -- An exception rolls the whole run back.
  unfoldable pub reap_expired : Backend → Reaping → Db S → Reply ℕ × Db S
  reap_expired disabled r db = (returns 0, db)
  reap_expired no_session r db = (raises, db)
  reap_expired failing r db = (raises, db)
  reap_expired _ r db = elim (reap_jobs r (expired_jobs r db) db) [
    | none ↦ (raises, db)
    | some db' ↦ (returns (length (expired_jobs r db)), db')
  ]

  unfoldable pub size : Backend → String → Db S → Reply ℕ
  size disabled queue db = returns 0
  size no_session queue db = raises
  size failing queue db = returns 0
  size _ queue db = returns (length (select (unreserved queue) (job_rows S db)))

  abbrev pub queue_jobs : String → Db S → List (Keyed Job)
  queue_jobs queue db = select (λ j. str_eq j.columns.queue queue) (job_rows S db)

  unfoldable pub stats : Backend → String → ℕ → Db S → Reply Stats
  stats disabled queue now db = returns empty_stats
  stats no_session queue now db = raises
  stats failing queue now db = returns empty_stats
  stats _ queue now db =
      let jobs = queue_jobs queue db in
      returns (record {
        ready = length (ready_jobs now jobs);
        reserved = length (reserved_jobs jobs);
        delayed = length (delayed_jobs now jobs);
        failed = length (select (λ f. str_eq f.columns.queue queue) (failed_rows S db));
        oldest_ready_age = oldest_ready_age now (ready_jobs now jobs);
      })

  -- The three ways in which one job is reaped.
  pub reap_job-cases :
      (P : Option (Db S) → Type 0) (r : Reaping) (j : Keyed Job) (db : Db S)
      → P none
      → P (some (give_up r j db))
      → P (some (give_back r j db))
      → P (reap_job r j db)
  unfolding reap_job
  reap_job-cases P r j db stop up back =
      elim (Option-cases (payload_max_tries (decode j.columns.payload))) [
        | inl e ↦ rw (e, reap_job) stop
        | inr (t, e) ↦ elim (Bool-cases (leb t j.columns.attempts)) [
          | inl over ↦ rw (e, reap_job) (rw over up)
          | inr left ↦ rw (e, reap_job) (rw left back)
        ]
      ]
