-- ===== src/DatabaseQueue/History/Spared.antt =====
-- A reservation of a job under any call that spares it.
use route_mq.Prelude.{
  ℕ, ◌+◌, ◌≤◌, ◌≢◌, Option, none, some, List, [], ◌∷◌, select, All, Bool-cases, Option-cases, inl,
  inr,
}
use route_mq.Text.{String}
use route_mq.Sql.{Keyed}
use route_mq.Sql.Middle.{at}
use route_mq.DatabaseQueue.{
  Job, FailedJob, Backend, disabled, no_session, failing, Storage, Reply, returns, raises, seconds,
  is_expired,
}
use route_mq.DatabaseQueue.Operations.{Db, job_rows, failed}
use route_mq.DatabaseQueue.Failed.{
  forget_failed_job, forget_found, retry_failed_job, retry_found, forget_after, get_failed_job,
  flush_failed_jobs,
}
use route_mq.DatabaseQueue.Reaper.{
  Reaping, reap_job, reap_job-cases, reap_jobs, expired_jobs, reap_expired,
}
use route_mq.DatabaseQueue.History.{
  Call, pushes, pops, releases, deletes, heartbeats, fails, reaps, retries, forgets, flushes, step,
  run,
}
use route_mq.DatabaseQueue.History.Held.{
  HeldRow, IsHeld, Spares, push-IsHeld, pop-IsHeld, release-IsHeld, delete-job-IsHeld,
  heartbeat-IsHeld, with_failed, delete-IsHeld, update-IsHeld, rewritten, at-ne, expired-ne,
}

module _ (S : Storage) (id t : ℕ) where
  failed-IsHeld :
      (b : Backend) (f : FailedJob) (db : Db S)
      → IsHeld S id t db
      → IsHeld S id t (failed S b f db).1
  unfolding failed
  failed-IsHeld disabled f db h = h
  failed-IsHeld no_session f db h = h
  failed-IsHeld failing f db h = h
  failed-IsHeld _ f db h = with_failed S id t db _ h

  forget_found-IsHeld :
      (i : ℕ) (db : Db S) (found : Option (Keyed FailedJob))
      → IsHeld S id t db
      → IsHeld S id t (forget_found S i db found).1
  forget_found-IsHeld i db none h = h
  forget_found-IsHeld i db (some r) h = with_failed S id t db _ h

  forget-IsHeld :
      (b : Backend) (i : ℕ) (db : Db S)
      → IsHeld S id t db
      → IsHeld S id t (forget_failed_job S b i db).1
  unfolding forget_failed_job
  forget-IsHeld disabled i db h = h
  forget-IsHeld no_session i db h = h
  forget-IsHeld failing i db h = h
  forget-IsHeld _ i db h = forget_found-IsHeld i db _ h

  forget_after-IsHeld :
      (b : Backend) (i : ℕ) (pushed : Reply Unit × Db S)
      → IsHeld S id t pushed.1
      → IsHeld S id t (forget_after S b i pushed).1
  forget_after-IsHeld b i (raises, db) h = h
  forget_after-IsHeld b i (returns u, db) h = forget-IsHeld b i db h

  retry_found-IsHeld :
      (pushing forgetting : Backend) (i now created : ℕ) (db : Db S)
      (found : Reply (Option (Keyed FailedJob)))
      → IsHeld S id t db
      → IsHeld S id t (retry_found S pushing forgetting i now created db found).1
  retry_found-IsHeld pushing forgetting i now created db raises h = h
  retry_found-IsHeld pushing forgetting i now created db (returns none) h = h
  retry_found-IsHeld pushing forgetting i now created db (returns (some r)) h =
      forget_after-IsHeld forgetting i _ (push-IsHeld S id t pushing _ _ _ now created db h)

  flush-IsHeld :
      (b : Backend) (queue : Option String) (db : Db S)
      → IsHeld S id t db
      → IsHeld S id t (flush_failed_jobs S b queue db).1
  unfolding flush_failed_jobs
  flush-IsHeld disabled queue db h = h
  flush-IsHeld no_session queue db h = h
  flush-IsHeld failing queue db h = h
  flush-IsHeld _ queue db h = with_failed S id t db _ h

  abbrev Finally : Option (Db S) → Type 0
  Finally none = Unit
  Finally (some db) = IsHeld S id t db

  reap_job-IsHeld :
      (g : Reaping) (j : Keyed Job) (db : Db S)
      → j.id ≢ id
      → IsHeld S id t db
      → Finally (reap_job S g j db)
  reap_job-IsHeld g j db ne h =
      let f = λ (v : Job). record v { reserved_at = none; available_at = g.now } in
      reap_job-cases S Finally g j db tt
        (with_failed S id t _ _ (delete-IsHeld S id t (at j.id) db h))
        (update-IsHeld S id t (at j.id) f db
          (λ r. rewritten S id t (at j.id) f r (at-ne S id t j.id r ne)) h)

  reap_jobs-IsHeld :
      (g : Reaping) (js : List (Keyed Job)) (db : Db S)
      → All (λ j. j.id ≢ id) js
      → IsHeld S id t db
      → Finally (reap_jobs S g js db)
  unfolding reap_jobs
  reap_jobs-IsHeld g [] db ne h = h
  reap_jobs-IsHeld g (j ∷ js) db ne h = elim (Option-cases (reap_job S g j db)) [
    | inl stop ↦ rw (stop, reap_jobs) tt
    | inr (db', go) ↦
        rw (go, reap_jobs)
          (reap_jobs-IsHeld g js db' ne.1 (rw go at (reap_job-IsHeld g j db ne.0 h)))
  ]

  expired_jobs-ne :
      (g : Reaping) (js : List (Keyed Job))
      → g.now ≤ t + seconds g.visibility
      → All (HeldRow S id t) js
      → All (λ j. j.id ≢ id) (select (is_expired g.queue g.visibility g.now) js)
  expired_jobs-ne g [] fresh h = tt
  expired_jobs-ne g (j ∷ js) fresh h = elim (Bool-cases (is_expired g.queue g.visibility g.now j)) [
    | inl e ↦ rw e (expired-ne S id t g j fresh h.0 e, expired_jobs-ne g js fresh h.1)
    | inr e ↦ rw e (expired_jobs-ne g js fresh h.1)
  ]

  reap_expired-IsHeld :
      (b : Backend) (g : Reaping) (db : Db S)
      → g.now ≤ t + seconds g.visibility
      → IsHeld S id t db
      → IsHeld S id t (reap_expired S b g db).1
  unfolding reap_expired
  reap_expired-IsHeld disabled g db fresh h = h
  reap_expired-IsHeld no_session g db fresh h = h
  reap_expired-IsHeld failing g db fresh h = h
  reap_expired-IsHeld _ g db fresh h =
      let others = expired_jobs-ne g (job_rows S db) fresh h.held in
      elim (Option-cases (reap_jobs S g (expired_jobs S g db) db)) [
        | inl stop ↦ rw (stop, reap_expired) h
        | inr (db', go) ↦
            rw (go, reap_expired) (rw go at (reap_jobs-IsHeld g (expired_jobs S g db) db others h))
      ]

  step-IsHeld :
      (c : Call) (db : Db S) → Spares id t c → IsHeld S id t db → IsHeld S id t (step S c db)
  unfolding step retry_failed_job
  step-IsHeld (pushes b payload queue delay now created) db s h =
      push-IsHeld S id t b payload queue delay now created db h
  step-IsHeld (pops b locked queue now later) db s h =
      pop-IsHeld S id t b locked queue now later db h
  step-IsHeld (releases b i queue delay now) db s h =
      release-IsHeld S id t b i queue delay now db s h
  step-IsHeld (deletes b i queue) db s h = delete-job-IsHeld S id t b i queue db h
  step-IsHeld (heartbeats b i queue now) db s h = heartbeat-IsHeld S id t b i queue now db s h
  step-IsHeld (fails b f) db s h = failed-IsHeld b f db h
  step-IsHeld (reaps b g) db s h = reap_expired-IsHeld b g db s h
  step-IsHeld (retries b i now created) db s h =
      retry_found-IsHeld b.pushes b.forgets i now created db (get_failed_job S b.looks_up i db) h
  step-IsHeld (forgets b i) db s h = forget-IsHeld b i db h
  step-IsHeld (flushes b queue) db s h = flush-IsHeld b queue db h

  pub run-IsHeld :
      (cs : List Call) (db : Db S)
      → All (Spares id t) cs
      → IsHeld S id t db
      → IsHeld S id t (run S cs db)
  unfolding run
  run-IsHeld [] db s h = h
  run-IsHeld (c ∷ cs) db s h = run-IsHeld cs (step S c db) s.1 (step-IsHeld c db s.0 h)
