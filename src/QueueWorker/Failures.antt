-- ===== src/QueueWorker/Failures.antt =====
-- What `_process_job` of routemq/queue/queue_worker.py does with a job that fails.
use route_mq.Prelude.{some, ◌≤◌, ℕ, ◌<◌, ◌≡◌, refl, arith, true, false, Option, List, ◌∷◌, ltb}
use route_mq.QueueWorker.{
  job_succeeded, Exception, Reply, returns, raises, in_time, Event, deleted, released, job_started,
  job_retried, job_failed, JobData, Driver, Tasks, Worker, Act, did_return, run_job, fail_job,
  attempt_job, settle_job, process_job, tries, is_timeout,
}

module _ {W J : Type 0} (driver : Driver W) (tasks : Tasks W J) (worker_tries : Option ℕ) where
  abbrev pub limit : J → ℕ
  limit job = tries driver tasks worker_tries job

  abbrev pub process : JobData → Act W Unit
  process d = process_job driver tasks worker_tries d

  abbrev pub after_release : Reply Unit → ℕ → List Event → List Event
  after_release (returns u) delay es = job_retried delay ∷ es
  after_release (raises e) delay es = es

  -- A job with a try left that raises is released for the delay that it asks for, and is neither
  -- deleted nor failed; the reply is the one of the release.
  pub process_job-retries :
      (d : JobData) (s : Worker W) (job : J) (e : Exception) (delay : ℕ)
      → (r : Reply Unit) (w₁ w₂ w₃ w₄ w₅ : W)
      → tasks.unserialize d.payload s.world ≡ (returns job, w₁)
      → tasks.handle job w₁ ≡ (in_time (raises e), w₂)
      → is_timeout e ≡ false
      → tasks.retry_delay job d.attempts w₂ ≡ (returns delay, w₃)
      → driver.release d.id delay w₃ ≡ (r, w₄)
      → driver.heartbeats w₄ ≡ (returns tt, w₅)
      → d.attempts < limit job
      → ((process d s).0 ≡ r)
        × ((process d s).1.world ≡ w₅)
        × ((process d s).1.jobs_failed ≡ s.jobs_failed)
        × ((process d s).1.log
            ≡ after_release r delay (released delay (did_return r) ∷ job_started ∷ s.log))
  unfolding process_job attempt_job settle_job run_job
  process_job-retries d s job e delay (returns u) w₁ w₂ w₃ w₄ w₅ read handled fault delayed back
        beat left =
      let not_over : ltb (limit job) d.attempts ≡ false = ground (arith, left) in
      let again : ltb d.attempts (limit job) ≡ true = ground (arith, left) in
      rw read (
        rw not_over (
          rw handled
            (rw fault (rw again (rw delayed (rw back (rw beat (refl, refl, refl, refl))))))))
  process_job-retries d s job e delay (raises x) w₁ w₂ w₃ w₄ w₅ read handled fault delayed back beat
        left =
      let not_over : ltb (limit job) d.attempts ≡ false = ground (arith, left) in
      let again : ltb d.attempts (limit job) ≡ true = ground (arith, left) in
      rw read (
        rw not_over (
          rw handled
            (rw fault (rw again (rw delayed (rw back (rw beat (refl, refl, refl, refl))))))))

  -- When the last try of a job raises and its `failed` hook raises too, the job is deleted without
  -- having been stored with the failed jobs.
  pub process_job-loses :
      (d : JobData) (s : Worker W) (job : J) (e e' : Exception) (r : Reply Unit)
      → (w₁ w₂ w₃ w₄ w₅ : W) → tasks.unserialize d.payload s.world ≡ (returns job, w₁)
      → tasks.handle job w₁ ≡ (in_time (raises e), w₂)
      → is_timeout e ≡ false
      → d.attempts ≡ limit job
      → tasks.failed job e w₂ ≡ (raises e', w₃)
      → driver.delete d.id w₃ ≡ (r, w₄)
      → driver.heartbeats w₄ ≡ (returns tt, w₅)
      → ((process d s).0 ≡ r)
        × ((process d s).1.world ≡ w₅)
        × ((process d s).1.log ≡ deleted (did_return r) ∷ job_failed e ∷ job_started ∷ s.log)
  unfolding process_job attempt_job settle_job run_job fail_job
  process_job-loses d s job e e' r w₁ w₂ w₃ w₄ w₅ read handled fault last failed delete beat =
      let not_over : ltb (limit job) d.attempts ≡ false = ground (arith, last) in
      let no_more : ltb d.attempts (limit job) ≡ false = ground (arith, last) in
      rw read (
        rw not_over
          (rw handled (rw fault (rw no_more (rw failed (rw delete (rw beat (refl, refl, refl))))))))

  -- When a heartbeat of a job raises, `_process_job` raises its exception after the job has
  -- succeeded and has been deleted, and leaves the id of the job as that of the current one.
  pub process_job-stays :
      (d : JobData) (s : Worker W) (job : J) (e : Exception)
      → (w₁ w₂ w₃ w₄ : W) → tasks.unserialize d.payload s.world ≡ (returns job, w₁)
      → tasks.handle job w₁ ≡ (in_time (returns tt), w₂)
      → d.attempts ≤ limit job
      → driver.delete d.id w₂ ≡ (returns tt, w₃)
      → driver.heartbeats w₃ ≡ (raises e, w₄)
      → ((process d s).0 ≡ raises e)
        × ((process d s).1.current_job_id ≡ some d.id)
        × ((process d s).1.log ≡ job_succeeded ∷ deleted true ∷ job_started ∷ s.log)
  unfolding process_job attempt_job run_job
  process_job-stays d s job e w₁ w₂ w₃ w₄ read handled left delete beat =
      let not_over : ltb (limit job) d.attempts ≡ false = ground (arith, left) in
      rw read (rw not_over (rw handled (rw delete (rw beat (refl, refl, refl)))))
