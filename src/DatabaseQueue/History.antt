-- ===== src/DatabaseQueue/History.antt =====
-- Histories of calls of `DatabaseQueue`: the order of the primary keys, after any of them.
pub mod Held
mod Spared
pub mod Exclusive
use route_mq.Prelude.{
  ℕ, ◌≡◌, refl, Bool, Option, none, some, List, [], ◌∷◌, arith, leb, Bool-cases, Option-cases, inl,
  inr, if◌then◌else◌,
}
use route_mq.Text.{String}
use route_mq.Sql.{Keyed}
use route_mq.Sql.Order
use route_mq.Sql.Order.{insert-IsOrdered, update-IsOrdered, delete-IsOrdered}
use route_mq.DatabaseQueue.{
  Job, FailedJob, Backend, disabled, no_session, failing, failing_refresh, working, Storage, Reply,
  returns, raises,
}
use route_mq.DatabaseQueue.Operations.{
  Db, push, pop, claim, next_job, release, delete, heartbeat, failed,
}
use route_mq.DatabaseQueue.Failed.{
  Sessions, forget_failed_job, forget_found, retry_failed_job, retry_found, forget_after,
  get_failed_job, flush_failed_jobs,
}
use route_mq.DatabaseQueue.Reaper.{
  Reaping, reap_job, reap_job-cases, reap_jobs, expired_jobs, reap_expired,
}

-- A call that may change the tables, with its arguments.
pub data Call : Type 0 where
  pushes : Backend → String → String → ℕ → ℕ → ℕ → Call
  pops : Backend → (ℕ → Bool) → String → ℕ → ℕ → Call
  releases : Backend → ℕ → String → ℕ → ℕ → Call
  deletes : Backend → ℕ → String → Call
  heartbeats : Backend → ℕ → String → ℕ → Call
  fails : Backend → FailedJob → Call
  reaps : Backend → Reaping → Call
  retries : Sessions → ℕ → ℕ → ℕ → Call
  forgets : Backend → ℕ → Call
  flushes : Backend → Option String → Call

module _ (S : Storage) where
  unfoldable pub step : Call → Db S → Db S
  step (pushes b payload queue delay now created) db =
      (push S b payload queue delay now created db).1
  step (pops b locked queue now later) db = (pop S b locked queue now later db).1
  step (releases b id queue delay now) db = (release S b id queue delay now db).1
  step (deletes b id queue) db = (delete S b id queue db).1
  step (heartbeats b id queue now) db = (heartbeat S b id queue now db).1
  step (fails b f) db = (failed S b f db).1
  step (reaps b r) db = (reap_expired S b r db).1
  step (retries b id now created) db = (retry_failed_job S b id now created db).1
  step (forgets b id) db = (forget_failed_job S b id db).1
  step (flushes b queue) db = (flush_failed_jobs S b queue db).1

  unfoldable pub run : List Call → Db S → Db S
  unfolding step
  run [] db = db
  run (c ∷ cs) db = run cs (step c db)

  pub record IsOrdered (db : Db S) : Type 0 where
    pub jobs : Order.IsOrdered S.jobs db.jobs
    pub failed : Order.IsOrdered S.failed_jobs db.failed_jobs

  with_jobs :
      (db : Db S) (s : S.jobs.State)
      → IsOrdered db
      → Order.IsOrdered S.jobs s
      → IsOrdered (record db { jobs = s })
  with_jobs db s o k = record { jobs = k; failed = o.failed }

  with_failed :
      (db : Db S) (s : S.failed_jobs.State)
      → IsOrdered db
      → Order.IsOrdered S.failed_jobs s
      → IsOrdered (record db { failed_jobs = s })
  with_failed db s o k = record { jobs = o.jobs; failed = k }

  push-IsOrdered :
      (b : Backend) (payload queue : String) (delay now created : ℕ) (db : Db S)
      → IsOrdered db
      → IsOrdered (push S b payload queue delay now created db).1
  unfolding push
  push-IsOrdered disabled payload queue delay now created db o = o
  push-IsOrdered no_session payload queue delay now created db o = o
  push-IsOrdered failing payload queue delay now created db o = o
  push-IsOrdered _ payload queue delay now created db o =
      with_jobs db _ o (insert-IsOrdered S.jobs _ db.jobs o.jobs)

  claim-IsOrdered :
      (b : Backend) (later : ℕ) (db : Db S) (j : Option (Keyed Job))
      → IsOrdered db
      → IsOrdered (claim S b later db j).1
  unfolding claim
  claim-IsOrdered b later db none o = o
  claim-IsOrdered failing_refresh later db (some j) o =
      with_jobs db _ o (update-IsOrdered S.jobs _ _ db.jobs o.jobs)
  claim-IsOrdered _ later db (some j) o =
      with_jobs db _ o (update-IsOrdered S.jobs _ _ db.jobs o.jobs)

  pop-IsOrdered :
      (b : Backend) (locked : ℕ → Bool) (queue : String) (now later : ℕ) (db : Db S)
      → IsOrdered db
      → IsOrdered (pop S b locked queue now later db).1
  unfolding pop
  pop-IsOrdered disabled locked queue now later db o = o
  pop-IsOrdered no_session locked queue now later db o = o
  pop-IsOrdered failing locked queue now later db o = o
  pop-IsOrdered b locked queue now later db o =
      claim-IsOrdered b later db (next_job S locked queue now db) o

  release-IsOrdered :
      (b : Backend) (id : ℕ) (queue : String) (delay now : ℕ) (db : Db S)
      → IsOrdered db
      → IsOrdered (release S b id queue delay now db).1
  unfolding release
  release-IsOrdered disabled id queue delay now db o = o
  release-IsOrdered no_session id queue delay now db o = o
  release-IsOrdered failing id queue delay now db o = o
  release-IsOrdered _ id queue delay now db o =
      with_jobs db _ o (update-IsOrdered S.jobs _ _ db.jobs o.jobs)

  delete-job-IsOrdered :
      (b : Backend) (id : ℕ) (queue : String) (db : Db S)
      → IsOrdered db
      → IsOrdered (delete S b id queue db).1
  unfolding delete
  delete-job-IsOrdered disabled id queue db o = o
  delete-job-IsOrdered no_session id queue db o = o
  delete-job-IsOrdered failing id queue db o = o
  delete-job-IsOrdered _ id queue db o = with_jobs db _ o (delete-IsOrdered S.jobs _ db.jobs o.jobs)

  heartbeat-IsOrdered :
      (b : Backend) (id : ℕ) (queue : String) (now : ℕ) (db : Db S)
      → IsOrdered db
      → IsOrdered (heartbeat S b id queue now db).1
  unfolding heartbeat
  heartbeat-IsOrdered disabled id queue now db o = o
  heartbeat-IsOrdered no_session id queue now db o = o
  heartbeat-IsOrdered failing id queue now db o = o
  heartbeat-IsOrdered _ id queue now db o =
      with_jobs db _ o (update-IsOrdered S.jobs _ _ db.jobs o.jobs)

  failed-IsOrdered :
      (b : Backend) (f : FailedJob) (db : Db S) → IsOrdered db → IsOrdered (failed S b f db).1
  unfolding failed
  failed-IsOrdered disabled f db o = o
  failed-IsOrdered no_session f db o = o
  failed-IsOrdered failing f db o = o
  failed-IsOrdered _ f db o =
      with_failed db _ o (insert-IsOrdered S.failed_jobs f db.failed_jobs o.failed)

  forget_found-IsOrdered :
      (id : ℕ) (db : Db S) (found : Option (Keyed FailedJob))
      → IsOrdered db
      → IsOrdered (forget_found S id db found).1
  forget_found-IsOrdered id db none o = o
  forget_found-IsOrdered id db (some r) o =
      with_failed db _ o (delete-IsOrdered S.failed_jobs _ db.failed_jobs o.failed)

  forget-IsOrdered :
      (b : Backend) (id : ℕ) (db : Db S) → IsOrdered db → IsOrdered (forget_failed_job S b id db).1
  unfolding forget_failed_job
  forget-IsOrdered disabled id db o = o
  forget-IsOrdered no_session id db o = o
  forget-IsOrdered failing id db o = o
  forget-IsOrdered _ id db o = forget_found-IsOrdered id db _ o

  forget_after-IsOrdered :
      (b : Backend) (id : ℕ) (pushed : Reply Unit × Db S)
      → IsOrdered pushed.1
      → IsOrdered (forget_after S b id pushed).1
  forget_after-IsOrdered b id (raises, db) o = o
  forget_after-IsOrdered b id (returns u, db) o = forget-IsOrdered b id db o

  retry_found-IsOrdered :
      (pushing forgetting : Backend) (id now created : ℕ) (db : Db S)
      (found : Reply (Option (Keyed FailedJob)))
      → IsOrdered db
      → IsOrdered (retry_found S pushing forgetting id now created db found).1
  retry_found-IsOrdered pushing forgetting id now created db raises o = o
  retry_found-IsOrdered pushing forgetting id now created db (returns none) o = o
  retry_found-IsOrdered pushing forgetting id now created db (returns (some r)) o =
      forget_after-IsOrdered forgetting id _ (push-IsOrdered pushing _ _ _ now created db o)

  flush-IsOrdered :
      (b : Backend) (queue : Option String) (db : Db S)
      → IsOrdered db
      → IsOrdered (flush_failed_jobs S b queue db).1
  unfolding flush_failed_jobs
  flush-IsOrdered disabled queue db o = o
  flush-IsOrdered no_session queue db o = o
  flush-IsOrdered failing queue db o = o
  flush-IsOrdered _ queue db o =
      with_failed db _ o (delete-IsOrdered S.failed_jobs _ db.failed_jobs o.failed)

  -- `P` holds of the tables that a run ends with, if it ends.
  abbrev Finally : (Db S → Type 0) → Option (Db S) → Type 0
  Finally P none = Unit
  Finally P (some db) = P db

  reap_job-IsOrdered :
      (r : Reaping) (j : Keyed Job) (db : Db S)
      → IsOrdered db
      → Finally IsOrdered (reap_job S r j db)
  reap_job-IsOrdered r j db o =
      reap_job-cases S (Finally IsOrdered) r j db tt
        (record {
          jobs = delete-IsOrdered S.jobs _ db.jobs o.jobs;
          failed = insert-IsOrdered S.failed_jobs _ db.failed_jobs o.failed;
        })
        (with_jobs db _ o (update-IsOrdered S.jobs _ _ db.jobs o.jobs))

  reap_jobs-IsOrdered :
      (r : Reaping) (js : List (Keyed Job)) (db : Db S)
      → IsOrdered db
      → Finally IsOrdered (reap_jobs S r js db)
  unfolding reap_jobs
  reap_jobs-IsOrdered r [] db o = o
  reap_jobs-IsOrdered r (j ∷ js) db o = elim (Option-cases (reap_job S r j db)) [
    | inl stop ↦ rw (stop, reap_jobs) tt
    | inr (db', go) ↦
        rw (go, reap_jobs) (reap_jobs-IsOrdered r js db' (rw go at (reap_job-IsOrdered r j db o)))
  ]

  reap_expired-IsOrdered :
      (b : Backend) (r : Reaping) (db : Db S) → IsOrdered db → IsOrdered (reap_expired S b r db).1
  unfolding reap_expired
  reap_expired-IsOrdered disabled r db o = o
  reap_expired-IsOrdered no_session r db o = o
  reap_expired-IsOrdered failing r db o = o
  reap_expired-IsOrdered _ r db o = elim (Option-cases (reap_jobs S r (expired_jobs S r db) db)) [
    | inl stop ↦ rw (stop, reap_expired) o
    | inr (db', go) ↦
        rw (go, reap_expired) (rw go at (reap_jobs-IsOrdered r (expired_jobs S r db) db o))
  ]

  step-IsOrdered : (c : Call) (db : Db S) → IsOrdered db → IsOrdered (step c db)
  unfolding step retry_failed_job
  step-IsOrdered (pushes b payload queue delay now created) db o =
      push-IsOrdered b payload queue delay now created db o
  step-IsOrdered (pops b locked queue now later) db o = pop-IsOrdered b locked queue now later db o
  step-IsOrdered (releases b id queue delay now) db o = release-IsOrdered b id queue delay now db o
  step-IsOrdered (deletes b id queue) db o = delete-job-IsOrdered b id queue db o
  step-IsOrdered (heartbeats b id queue now) db o = heartbeat-IsOrdered b id queue now db o
  step-IsOrdered (fails b f) db o = failed-IsOrdered b f db o
  step-IsOrdered (reaps b r) db o = reap_expired-IsOrdered b r db o
  step-IsOrdered (retries b id now created) db o =
      retry_found-IsOrdered b.pushes b.forgets id now created db (get_failed_job S b.looks_up id db)
        o
  step-IsOrdered (forgets b id) db o = forget-IsOrdered b id db o
  step-IsOrdered (flushes b queue) db o = flush-IsOrdered b queue db o

  -- After any calls, under any failures of the backend, the rows of both tables still stand in
  -- ascending order of their keys, below the key that comes next: no key is given twice.
  run-IsOrdered : (cs : List Call) (db : Db S) → IsOrdered db → IsOrdered (run cs db)
  unfolding run
  run-IsOrdered [] db o = o
  run-IsOrdered (c ∷ cs) db o = run-IsOrdered cs (step c db) (step-IsOrdered c db o)
