-- ===== src/QueueWorker.antt =====
-- routemq/queue/queue_worker.py: what `QueueWorker._process_job` does with one job. The queue driver
-- and the classes of the jobs are parameters; ids are those of the queue's rows.
pub mod Settled
pub mod Failures
pub mod Loop
use route_mq.Prelude.{
  ℕ, zero, suc, ◌+◌, ◌-◌, Bool, true, false, not, ◌&&◌, ◌||◌, Option, none, some, List, [], ◌∷◌,
  ltb, leb, ◌==◌, if◌then◌else◌,
}
use route_mq.Text.{String}

-- Exceptions: asyncio.TimeoutError, the three that the worker makes, and any other.
pub data Exception : Type 0 where
  timeout_error job_timed_out shutdown_grace_expired max_tries_exceeded : Exception
  other : ℕ → Exception

abbrev pub is_timeout : Exception → Bool
is_timeout timeout_error = true
is_timeout _ = false

pub data Reply (A : Type 0) : Type 0 where
  returns : A → Reply A
  raises : Exception → Reply A

pub data WorkerState : Type 0 where
  running draining stopping dead : WorkerState

-- How the race between a job, the shutdown event, the grace period and the timeout ends: the job
-- ends first, or after the shutdown began; the grace expires; or the timeout strikes, before or
-- after the shutdown began.
pub data Ending : Type 0 where
  in_time in_grace : Reply (Unit {0}) → Ending
  grace_over : Ending
  timed_out : (after_shutdown : Bool) → Ending

-- Lifecycle records, and the calls of the driver with whether they returned.
pub data Event : Type 0 where
  job_started job_succeeded job_timed_out_at job_dead_lettered : Event
  job_retried : ℕ → Event
  job_failed : Exception → Event
  deleted stored : Bool → Event
  released : ℕ → Bool → Event

pub record JobData : Type 0 where
  pub id : ℕ
  pub payload : String
  pub attempts : ℕ

-- What the worker uses of its driver, for its own queue. W is the world outside of the worker.
pub record Driver (W : Type 0) : Type 0 where
  pub release : ℕ → ℕ → W → Reply Unit × W
  pub delete : ℕ → W → Reply Unit × W
  pub failed : String → Exception → W → Reply Unit × W
  -- How the task that sends the heartbeats of a job has ended when the job is over: cancelled, or
  -- by the exception of a heartbeat.
  pub heartbeats : W → Reply Unit × W

-- What the worker uses of a job; `retry_delay` is the rounded delay for the attempts made.
pub record Tasks (W J : Type 0) : Type 0 where
  pub unserialize : String → W → Reply J × W
  pub handle : J → W → Ending × W
  pub failed : J → Exception → W → Reply Unit × W
  pub serialize : J → W → Reply String × W
  pub retry_delay : J → ℕ → W → Reply ℕ × W
  pub max_tries : J → ℕ

-- The worker's own state. The log has its newest entry first.
pub record Worker (W : Type 0) : Type 0 where
  pub world : W
  pub state : WorkerState
  pub should_quit : Bool
  pub current_job_id : Option ℕ
  pub jobs_failed : ℕ
  -- Whether the call of `_process_job` has made a task for heartbeats.
  pub has_heartbeat : Bool
  pub log : List Event

-- `self.max_tries or job.max_tries`
abbrev pub tries_or : Option ℕ → ℕ → ℕ
tries_or none n = n
tries_or (some zero) n = n
tries_or (some (suc m)) n = suc m

abbrev pub did_return : {A : Type 0} → Reply A → Bool
did_return (returns a) = true
did_return (raises e) = false

-- A coroutine of the worker.
abbrev pub Act : Type 0 → Type 0 → Type 0
Act W A = Worker W → Reply A × Worker W

module _ {W : Type 0} where
  abbrev pub pure : {A : Type 0} → A → Act W A
  pure a s = (returns a, s)

  abbrev pub raise : {A : Type 0} → Exception → Act W A
  raise e s = (raises e, s)

  abbrev bound : {A B : Type 0} → (A → Act W B) → Reply A × Worker W → Reply B × Worker W
  bound f (returns a, s) = f a s
  bound f (raises e, s) = (raises e, s)

  infixl 5 ◌>>=◌ ◌>>◌
  abbrev pub ◌>>=◌ : {A B : Type 0} → Act W A → (A → Act W B) → Act W B
  ◌>>=◌ m f s = bound f (m s)

  abbrev pub ◌>>◌ : {A B : Type 0} → Act W A → Act W B → Act W B
  ◌>>◌ m k s = bound (λ a. k) (m s)

  abbrev caught : {A : Type 0} → (Exception → Act W A) → Reply A × Worker W → Reply A × Worker W
  caught f (returns a, s) = (returns a, s)
  caught f (raises e, s) = f e s

  -- `try: m` with `except Exception as e: f(e)`.
  abbrev pub catch : {A : Type 0} → Act W A → (Exception → Act W A) → Act W A
  catch m f s = caught f (m s)

  abbrev pub modify : (Worker W → Worker W) → Act W Unit
  modify g s = (returns tt, g s)

  abbrev pub note : Event → Worker W → Worker W
  note e s = record s { log = e ∷ s.log }

  -- A call that leaves the worker.
  abbrev pub call : {A : Type 0} → (W → Reply A × W) → Act W A
  call f s = let (r, w) = f s.world in (r, record s { world = w })

  -- A call of the driver, with its entry in the log.
  abbrev pub call_driver : (Bool → Event) → (W → Reply Unit × W) → Act W Unit
  call_driver event f s = let (r, s') = call f s in (r, note (event (did_return r)) s')

module _ {W J : Type 0} (driver : Driver W) (tasks : Tasks W J) (worker_tries : Option ℕ) where
  abbrev pub delete_job : JobData → Act W Unit
  delete_job d = call_driver deleted (driver.delete d.id)

  abbrev pub tries : J → ℕ
  tries job = tries_or worker_tries (tasks.max_tries job)

  abbrev drain : Worker W → Worker W
  drain s = record s { state = draining }

  abbrev pub conclude : Ending → Act W Unit
  conclude (in_time (returns u)) = pure tt
  conclude (in_time (raises e)) = raise e
  conclude (in_grace (returns u)) = modify drain
  conclude (in_grace (raises e)) = modify drain >> raise e
  conclude grace_over = modify drain >> raise shutdown_grace_expired
  conclude (timed_out true) = modify drain >> raise timeout_error
  conclude (timed_out false) = raise timeout_error

  -- `_run_job_with_shutdown_grace` under `wait_for`.
  unfoldable pub run_job : J → Act W Unit
  run_job job s =
      let (ending, w) = tasks.handle job s.world in conclude ending (record s { world = w })

  -- `_fail_job`
  unfoldable pub fail_job : J → Exception → Act W Unit
  fail_job job e =
      catch
        (do
          call (tasks.failed job e)
          payload ← call (tasks.serialize job)
          call_driver stored (driver.failed payload e))
        (λ error. pure tt)

  abbrev pub on_timeout : Exception → Act W Unit
  on_timeout e =
      if is_timeout e then modify (note job_timed_out_at) >> raise job_timed_out else raise e

  -- A job that has been taken more often than it may.
  abbrev pub bury_job : JobData → J → Act W Unit
  bury_job d job = do modify (note job_dead_lettered); fail_job job max_tries_exceeded; delete_job d

  abbrev pub work_job : JobData → J → Act W Unit
  work_job d job = do
    modify (λ s. note job_started (record s { has_heartbeat = true }))
    run_job job
    delete_job d
    modify (note job_succeeded)

  -- The body of the outer `try`, for a job that could be read.
  unfoldable pub attempt_job : JobData → J → Act W Unit
  attempt_job d job =
      if ltb (tries job) d.attempts then bury_job d job else catch (work_job d job) on_timeout

  abbrev pub count_failed : Worker W → Worker W
  count_failed s = record s { jobs_failed = s.jobs_failed + 1 }

  abbrev pub retry_job : JobData → J → Act W Unit
  retry_job d job = do
    delay ← call (tasks.retry_delay job d.attempts)
    call_driver (released delay) (driver.release d.id delay)
    modify (note (job_retried delay))

  abbrev pub give_up_job : JobData → J → Exception → Act W Unit
  give_up_job d job e = do
    modify (note (job_failed e))
    fail_job job e
    modify count_failed
    delete_job d

  -- What the outer `except` does with a job that could be read.
  unfoldable pub settle_job : JobData → J → Exception → Act W Unit
  settle_job d job e = if ltb d.attempts (tries job) then retry_job d job else give_up_job d job e

  abbrev pub read_again : JobData → Exception → Reply J → Act W Unit
  read_again d e (returns job) = settle_job d job e
  read_again d e (raises error) = delete_job d

  abbrev pub attempt_read : JobData → Reply J → Act W Unit
  attempt_read d (returns job) s = catch (attempt_job d job) (settle_job d job) s
  attempt_read d (raises e) s =
      let (r, s') = call (tasks.unserialize d.payload) s in read_again d e r s'

  abbrev pub process_read : JobData → Act W Unit
  process_read d s = let (r, s') = call (tasks.unserialize d.payload) s in attempt_read d r s'

  abbrev pub stop_draining : WorkerState → Bool → WorkerState
  stop_draining draining true = stopping
  stop_draining state quit = state

  abbrev pub leave : Worker W → Worker W
  leave s = record s { current_job_id = none; state = stop_draining s.state s.should_quit }

  abbrev pub settle_heartbeat : Reply Unit → Reply Unit → Act W Unit
  settle_heartbeat (returns u) r s = (r, leave s)
  settle_heartbeat (raises e) r s = (raises e, s)

  -- `finally`, where the exception of a heartbeat takes the place of what the body returned.
  abbrev pub finish : Reply Unit × Worker W → Reply Unit × Worker W
  finish (r, s) =
      if s.has_heartbeat
      then (let (beat, s') = call driver.heartbeats s in settle_heartbeat beat r s')
      else (r, leave s)

  abbrev pub enter : JobData → Worker W → Worker W
  enter d s = record s { current_job_id = some d.id; has_heartbeat = false }

  -- `_process_job`
  unfoldable pub process_job : JobData → Act W Unit
  unfolding attempt_job settle_job fail_job run_job
  process_job d s = finish (process_read d (enter d s))
