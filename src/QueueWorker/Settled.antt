-- ===== src/QueueWorker/Settled.antt =====
-- What `_process_job` of routemq/queue/queue_worker.py leaves of a job: how often it has left the
-- queue, or has gone back to it.
use route_mq.Prelude.{
  ℕ, ◌+◌, ◌≡◌, refl, ◌∙◌, arith, inl, inr, Bool, true, false, Option, List, [], ◌∷◌, ltb,
  Bool-cases,
}
use route_mq.QueueWorker.{
  Exception, Reply, returns, raises, Ending, in_time, in_grace, grace_over, timed_out, Event,
  deleted, released, JobData, Driver, Tasks, Worker, Act, ◌>>◌, modify, note, call, call_driver,
  did_return, bound, caught, conclude, run_job, fail_job, attempt_job, settle_job, process_job,
  on_timeout, pure, stored, delete_job, tries, job_retried, job_failed, count_failed, is_timeout,
  job_dead_lettered, max_tries_exceeded, job_started, job_succeeded, retry_job, give_up_job,
  bury_job, work_job, read_again, finish, attempt_read,
}

-- The calls of the driver by which a job leaves the queue or goes back to it.
abbrev pub settles : Event → ℕ
settles (deleted true) = 1
settles (released delay true) = 1
settles _ = 0

abbrev pub settled : List Event → ℕ
settled [] = 0
settled (e ∷ es) = settles e + settled es

abbrev pub once : {A : Type 0} → Reply A → ℕ
once (returns a) = 1
once (raises e) = 0

module _ {W : Type 0} where
  abbrev Quiet : {A : Type 0} → Act W A → Type 0
  Quiet m = (s : Worker W) → settled (m s).1.log ≡ settled s.log

  abbrev Settles : {A : Type 0} → Act W A → Type 0
  Settles m = (s : Worker W) → settled (m s).1.log ≡ once (m s).0 + settled s.log

  bound-Quiet :
      {A B : Type 0} (f : A → Act W B)
      → ((a : A) → Quiet (f a))
      → (p : Reply A × Worker W) → settled (bound f p).1.log ≡ settled p.1.log
  bound-Quiet f k (returns a, s) = k a s
  bound-Quiet f k (raises e, s) = refl

  bound-Settles :
      {A B : Type 0} (f : A → Act W B)
      → ((a : A) → Settles (f a))
      → (p : Reply A × Worker W) → settled (bound f p).1.log ≡ once (bound f p).0 + settled p.1.log
  bound-Settles f k (returns a, s) = k a s
  bound-Settles f k (raises e, s) = omega arith

  caught-Settles :
      {A : Type 0} (f : Exception → Act W A)
      → ((e : Exception) → Settles (f e))
      → (n : ℕ) (p : Reply A × Worker W) → settled p.1.log ≡ once p.0 + n
      → settled (caught f p).1.log ≡ once (caught f p).0 + n
  caught-Settles f k n (returns a, s) h = h
  caught-Settles f k n (raises e, s) h = let after = k e s in omega (arith, after, h)

  caught-Quiet :
      {A : Type 0} (f : Exception → Act W A)
      → ((e : Exception) → Quiet (f e))
      → (p : Reply A × Worker W) → settled (caught f p).1.log ≡ settled p.1.log
  caught-Quiet f k (returns a, s) = refl
  caught-Quiet f k (raises e, s) = k e s

  -- The rules for a sequence: one step of it settles.
  then-Settles : {A B : Type 0} (m : Act W A) (k : Act W B) → Quiet m → Settles k → Settles (m >> k)
  then-Settles m k h l s =
      let here = h s in
      let after = bound-Settles (λ a. k) (λ a. l) (m s) in omega (arith, here, after)

  Settles-then :
      {A : Type 0} (m : Act W A) (g : Worker W → Worker W)
      → Settles m
      → ((s : Worker W) → settled (g s).log ≡ settled s.log)
      → Settles (m >> modify g)
  Settles-then {A = A} m g h quiet s = changed (m s) (h s)
    where
      changed :
          (p : Reply A × Worker W)
          → settled p.1.log ≡ once p.0 + settled s.log
          → settled (bound (λ a. modify g) p).1.log
            ≡ once (bound (λ a. modify g) p).0 + settled s.log
      changed (returns a, s') h = quiet s' ∙ h
      changed (raises e, s') h = h

  call_driver-Settles :
      (event : Bool → Event) (f : W → Reply Unit × W)
      → settles (event true) ≡ 1
      → settles (event false) ≡ 0
      → Settles (call_driver event f)
  call_driver-Settles event f done undone s = logged (f s.world).0
    where
      logged :
          (r : Reply Unit) → settles (event (did_return r)) + settled s.log ≡ once r + settled s.log
      logged (returns u) = rw done refl
      logged (raises e) = rw undone refl

module _ {W J : Type 0} (driver : Driver W) (tasks : Tasks W J) (worker_tries : Option ℕ) where
  fail_job-Quiet : (job : J) (e : Exception) → Quiet (fail_job driver tasks worker_tries job e)
  unfolding fail_job
  fail_job-Quiet job e s =
      caught-Quiet (λ error. pure tt) (λ error s. refl) _
      ∙ bound-Quiet _
          (λ u s.
            bound-Quiet (λ payload. call_driver stored (driver.failed payload e))
              (λ payload s. omega arith) (call (tasks.serialize job) s))
          (call (tasks.failed job e) s)

  conclude-Quiet : (ending : Ending) → Quiet (conclude driver tasks worker_tries ending)
  conclude-Quiet (in_time (returns u)) s = refl
  conclude-Quiet (in_time (raises e)) s = refl
  conclude-Quiet (in_grace (returns u)) s = refl
  conclude-Quiet (in_grace (raises e)) s = refl
  conclude-Quiet grace_over s = refl
  conclude-Quiet (timed_out true) s = refl
  conclude-Quiet (timed_out false) s = refl

  run_job-Quiet : (job : J) → Quiet (run_job driver tasks worker_tries job)
  unfolding run_job
  run_job-Quiet job s = conclude-Quiet (tasks.handle job s.world).0 _

  delete_job-Settles : (d : JobData) → Settles (delete_job driver tasks worker_tries d)
  delete_job-Settles d = call_driver-Settles deleted (driver.delete d.id) refl refl

  retry_job-Settles : (d : JobData) (job : J) → Settles (retry_job driver tasks worker_tries d job)
  retry_job-Settles d job s =
      bound-Settles _
        (λ delay.
          Settles-then (call_driver (released delay) (driver.release d.id delay))
            (note (job_retried delay))
            (call_driver-Settles (released delay) (driver.release d.id delay) refl refl)
            (λ s. omega arith))
        (call (tasks.retry_delay job d.attempts) s)

  give_up_job-Settles :
      (d : JobData) (job : J) (e : Exception)
      → Settles (give_up_job driver tasks worker_tries d job e)
  give_up_job-Settles d job e =
      let delete = delete_job driver tasks worker_tries d in
      let fail = fail_job driver tasks worker_tries job e in
      let count = modify (count_failed driver tasks worker_tries) in
      then-Settles (modify (note (job_failed e))) (fail >> (count >> delete)) (λ s. omega arith)
        (then-Settles fail (count >> delete) (fail_job-Quiet job e)
          (then-Settles count delete (λ s. refl) (delete_job-Settles d)))

  settle_job-Settles :
      (d : JobData) (job : J) (e : Exception)
      → Settles (settle_job driver tasks worker_tries d job e)
  unfolding settle_job
  settle_job-Settles d job e s =
      elim (Bool-cases (ltb d.attempts (tries driver tasks worker_tries job))) [
        | inl left ↦ rw left (retry_job-Settles d job s)
        | inr over ↦ rw over (give_up_job-Settles d job e s)
      ]

  on_timeout-Settles : (e : Exception) → Settles (on_timeout driver tasks worker_tries e)
  on_timeout-Settles e s = elim (Bool-cases (is_timeout e)) [
    | inl late ↦ rw late (omega arith)
    | inr fault ↦ rw fault (omega arith)
  ]

  bury_job-Settles : (d : JobData) (job : J) → Settles (bury_job driver tasks worker_tries d job)
  bury_job-Settles d job =
      let delete = delete_job driver tasks worker_tries d in
      let fail = fail_job driver tasks worker_tries job max_tries_exceeded in
      then-Settles (modify (note job_dead_lettered)) (fail >> delete) (λ s. omega arith)
        (then-Settles fail delete (fail_job-Quiet job max_tries_exceeded) (delete_job-Settles d))

  work_job-Settles : (d : JobData) (job : J) → Settles (work_job driver tasks worker_tries d job)
  work_job-Settles d job =
      let delete = delete_job driver tasks worker_tries d in
      let run = run_job driver tasks worker_tries job in
      then-Settles (modify (λ s. note job_started (record s { has_heartbeat = true })))
        (run >> (delete >> modify (note job_succeeded))) (λ s. omega arith)
        (then-Settles run (delete >> modify (note job_succeeded)) (run_job-Quiet job)
          (Settles-then delete (note job_succeeded) (delete_job-Settles d) (λ s. omega arith)))

  attempt_job-Settles :
      (d : JobData) (job : J) → Settles (attempt_job driver tasks worker_tries d job)
  unfolding attempt_job
  attempt_job-Settles d job s =
      elim (Bool-cases (ltb (tries driver tasks worker_tries job) d.attempts)) [
        | inl over ↦ rw over (bury_job-Settles d job s)
        | inr left ↦ rw left (
            caught-Settles (on_timeout driver tasks worker_tries) on_timeout-Settles _ _
              (work_job-Settles d job s))
      ]

  read_again-Settles :
      (d : JobData) (e : Exception) (r : Reply J)
      → Settles (read_again driver tasks worker_tries d e r)
  read_again-Settles d e (returns job) = settle_job-Settles d job e
  read_again-Settles d e (raises error) = delete_job-Settles d

  attempt_read-Settles :
      (d : JobData) (r : Reply J) → Settles (attempt_read driver tasks worker_tries d r)
  attempt_read-Settles d (returns job) s =
      caught-Settles (settle_job driver tasks worker_tries d job) (settle_job-Settles d job) _ _
        (attempt_job-Settles d job s)
  attempt_read-Settles d (raises e) s =
      read_again-Settles d e (tasks.unserialize d.payload s.world).0 _

  abbrev BeatsWell : Type 0
  BeatsWell = (w : W) → (driver.heartbeats w).0 ≡ returns tt

  finish-Settles :
      (n : ℕ) (p : Reply Unit × Worker W)
      → BeatsWell
      → settled p.1.log ≡ once p.0 + n
      → settled (finish driver tasks worker_tries p).1.log
        ≡ once (finish driver tasks worker_tries p).0 + n
  finish-Settles n (r, s) beats h = elim (Bool-cases s.has_heartbeat) [
    | inl made ↦ rw made (rw (beats s.world) h)
    | inr never ↦ rw never h
  ]

-- When `_process_job` returns, the job has been deleted or released once, and when it raises, it
-- has not been deleted or released: for any driver and any job, whatever they raise or however
-- they end, where heartbeats do not raise.
pub process_job-Settles :
    {W J : Type 0} (driver : Driver W) (tasks : Tasks W J) (worker_tries : Option ℕ)
    → (d : JobData) (s : Worker W) → ((w : W) → (driver.heartbeats w).0 ≡ returns tt)
    → settled (process_job driver tasks worker_tries d s).1.log
      ≡ once (process_job driver tasks worker_tries d s).0 + settled s.log
unfolding process_job
process_job-Settles driver tasks worker_tries d s beats =
    finish-Settles driver tasks worker_tries _ _ beats
      (attempt_read-Settles driver tasks worker_tries d (tasks.unserialize d.payload s.world).0 _)
