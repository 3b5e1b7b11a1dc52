-- ===== src/QueueWorker/Loop.antt =====
-- `QueueWorker.work` of routemq/queue/queue_worker.py, with `_should_stop` and
-- `_run_reaper_if_due`. The driver's `pop` and `reap_expired` are parameters.
use route_mq.Prelude.{
  ℕ, zero, suc, ◌+◌, ◌-◌, ◌≤◌, ◌≡◌, refl, inl, inr, Bool, true, false, ◌&&◌, ◌||◌, Option, none,
  some, List, [], ◌∷◌, arith, ltb, leb, if◌then◌else◌, Bool-cases, subst,
}
use route_mq.QueueWorker.{
  Reply, returns, raises, JobData, Driver, Tasks, Worker, call, process_job, stopping,
}
use route_mq.QueueWorker.Settled.{settled, once, process_job-Settles}

-- One round of the loop: the clock in its check of the limits and in the reaper, whether the worker
-- is paused, and whether a signal or `stop` comes by its end.
pub record Round : Type 0 where
  pub now : ℕ
  pub paused : Bool
  pub stopped : Bool

pub record Limits : Type 0 where
  pub max_jobs : Option ℕ
  pub max_time : Option ℕ
  pub start_time : ℕ
  pub reaper_interval : ℕ

pub record LoopState (W : Type 0) : Type 0 where
  pub worker : Worker W
  pub jobs_processed : ℕ
  pub last_reaper_run : ℕ

-- None and 0 are no limit.
abbrev reached : Option ℕ → ℕ → Bool
reached none n = false
reached (some zero) n = false
reached (some (suc m)) n = leb (suc m) n

-- `_should_stop`
unfoldable pub should_stop : Limits → ℕ → ℕ → Bool
should_stop c processed now =
    reached c.max_jobs processed || (ltb 0 c.start_time && reached c.max_time (now - c.start_time))

module _ {W J : Type 0} (driver : Driver W) (tasks : Tasks W J) (worker_tries : Option ℕ) where
  module _ (pop : W → Reply (Option JobData) × W) (reap : W → Reply Unit × W) (c : Limits) where
    abbrev reaper_due : ℕ → LoopState W → Bool
    reaper_due now l = ltb 0 c.reaper_interval && leb c.reaper_interval (now - l.last_reaper_run)

    abbrev processed : LoopState W → Reply Unit × Worker W → LoopState W
    processed l (returns u, s) = record l { worker = s; jobs_processed = l.jobs_processed + 1 }
    processed l (raises e, s) = record l { worker = s }

    abbrev got_job : LoopState W → Reply (Option JobData) × Worker W → LoopState W
    got_job l (returns (some d), s) = processed l (process_job driver tasks worker_tries d s)
    got_job l (returns none, s) = record l { worker = s }
    got_job l (raises e, s) = record l { worker = s }

    abbrev reaped : LoopState W → Reply Unit × Worker W → LoopState W
    reaped l (returns u, s) = got_job l (call pop s)
    reaped l (raises e, s) = record l { worker = s }

    -- The `try` of a round; its `except` logs only.
    unfoldable pub take_job : ℕ → LoopState W → LoopState W
    take_job now l =
        if reaper_due now l
        then reaped (record l { last_reaper_run = now }) (call reap l.worker)
        else got_job l (call pop l.worker)

    abbrev stop_if : Bool → LoopState W → LoopState W
    stop_if true l = record l { worker = record l.worker { should_quit = true; state = stopping } }
    stop_if false l = l

    abbrev round : Round → LoopState W → LoopState W
    round r l = stop_if r.stopped (if r.paused then l else take_job r.now l)

    -- The loop, until it ends or the rounds do.
    unfoldable pub work : List Round → LoopState W → LoopState W
    unfolding take_job should_stop
    work [] l = l
    work (r ∷ rs) l =
        let rest = work rs (round r l) in
        if l.worker.should_quit || should_stop c l.jobs_processed r.now then l else rest

    processed-Counts :
        (l : LoopState W) (p : Reply Unit × Worker W) (n : ℕ)
        → settled p.1.log ≡ once p.0 + n
        → settled (processed l p).worker.log + l.jobs_processed ≡ n + (processed l p).jobs_processed
    processed-Counts l (returns u, s) n h = omega (arith, h)
    processed-Counts l (raises e, s) n h = omega (arith, h)

    got_job-Counts :
        ((w : W) → (driver.heartbeats w).0 ≡ returns tt)
        → (l : LoopState W) (p : Reply (Option JobData) × Worker W)
        → settled (got_job l p).worker.log + l.jobs_processed
          ≡ settled p.1.log + (got_job l p).jobs_processed
    got_job-Counts beats l (returns (some d), s) =
        processed-Counts l (process_job driver tasks worker_tries d s) (settled s.log)
          (process_job-Settles driver tasks worker_tries d s beats)
    got_job-Counts beats l (returns none, s) = refl
    got_job-Counts beats l (raises e, s) = refl

    reaped-Counts :
        ((w : W) → (driver.heartbeats w).0 ≡ returns tt)
        → (l : LoopState W) (p : Reply Unit × Worker W)
        → settled (reaped l p).worker.log + l.jobs_processed
          ≡ settled p.1.log + (reaped l p).jobs_processed
    reaped-Counts beats l (returns u, s) = got_job-Counts beats l (call pop s)
    reaped-Counts beats l (raises e, s) = refl

    take_job-Counts :
        ((w : W) → (driver.heartbeats w).0 ≡ returns tt)
        → (now : ℕ) (l : LoopState W)
        → settled (take_job now l).worker.log + l.jobs_processed
          ≡ settled l.worker.log + (take_job now l).jobs_processed
    unfolding take_job
    take_job-Counts beats now l = elim (Bool-cases (reaper_due now l)) [
      | inl due ↦
          rw due (reaped-Counts beats (record l { last_reaper_run = now }) (call reap l.worker))
      | inr early ↦ rw early (got_job-Counts beats l (call pop l.worker))
    ]

    round-Counts :
        ((w : W) → (driver.heartbeats w).0 ≡ returns tt)
        → (r : Round) (l : LoopState W)
        → settled (round r l).worker.log + l.jobs_processed
          ≡ settled l.worker.log + (round r l).jobs_processed
    round-Counts beats r l =
        let taken = take_job-Counts beats r.now l in
        elim (Bool-cases r.stopped) [
          | inl stop ↦
              rw stop
                (elim (Bool-cases r.paused) [ inl pause ↦ rw pause refl | inr go ↦ rw go taken ])
          | inr keep ↦
              rw keep
                (elim (Bool-cases r.paused) [ inl pause ↦ rw pause refl | inr go ↦ rw go taken ])
        ]

    -- Over any rounds of the loop, the worker counts as many jobs as it has deleted or released,
    -- where heartbeats do not raise.
    pub work-Counts :
        ((w : W) → (driver.heartbeats w).0 ≡ returns tt)
        → (rs : List Round) (l : LoopState W)
        → settled (work rs l).worker.log + l.jobs_processed
          ≡ settled l.worker.log + (work rs l).jobs_processed
    unfolding work
    work-Counts beats [] l = refl
    work-Counts beats (r ∷ rs) l =
        elim (Bool-cases (l.worker.should_quit || should_stop c l.jobs_processed r.now)) [
          | inl stop ↦ rw stop refl
          | inr go ↦
              let rest = work-Counts beats rs (round r l) in
              let here = round-Counts beats r l in rw go (omega (arith, rest, here))
        ]

    processed-le :
        (l : LoopState W) (p : Reply Unit × Worker W)
        → (processed l p).jobs_processed ≤ l.jobs_processed + 1
    processed-le l (returns u, s) = omega arith
    processed-le l (raises e, s) = omega arith

    got_job-le :
        (l : LoopState W) (p : Reply (Option JobData) × Worker W)
        → (got_job l p).jobs_processed ≤ l.jobs_processed + 1
    got_job-le l (returns (some d), s) = processed-le l (process_job driver tasks worker_tries d s)
    got_job-le l (returns none, s) = omega arith
    got_job-le l (raises e, s) = omega arith

    reaped-le :
        (l : LoopState W) (p : Reply Unit × Worker W)
        → (reaped l p).jobs_processed ≤ l.jobs_processed + 1
    reaped-le l (returns u, s) = got_job-le l (call pop s)
    reaped-le l (raises e, s) = omega arith

    take_job-le :
        (now : ℕ) (l : LoopState W) → (take_job now l).jobs_processed ≤ l.jobs_processed + 1
    unfolding take_job
    take_job-le now l = elim (Bool-cases (reaper_due now l)) [
      | inl due ↦ rw due (reaped-le (record l { last_reaper_run = now }) (call reap l.worker))
      | inr early ↦ rw early (got_job-le l (call pop l.worker))
    ]

    round-le : (r : Round) (l : LoopState W) → (round r l).jobs_processed ≤ l.jobs_processed + 1
    round-le r l =
        let taken = take_job-le r.now l in
        elim (Bool-cases r.stopped) [
          | inl stop ↦ rw stop (elim (Bool-cases r.paused) [
            | inl pause ↦ rw pause (omega arith)
            | inr go ↦ rw go taken
          ])
          | inr keep ↦ rw keep (elim (Bool-cases r.paused) [
            | inl pause ↦ rw pause (omega arith)
            | inr go ↦ rw go taken
          ])
        ]

    room_left :
        (m n now : ℕ) (quit : Bool)
        → c.max_jobs ≡ some (suc m)
        → quit || should_stop c n now ≡ false
        → n ≤ m
    unfolding should_stop
    room_left m n now quit limit go =
        let unreached : reached c.max_jobs n ≡ false = ground (arith, go) in
        let below : leb (suc m) n ≡ false = subst (λ o. reached o n ≡ false) limit unreached in
        ground (arith, below)

    -- With a limit on the number of jobs, the loop does not count more.
    pub work-le :
        (m : ℕ) (rs : List Round) (l : LoopState W)
        → c.max_jobs ≡ some (suc m)
        → l.jobs_processed ≤ suc m
        → (work rs l).jobs_processed ≤ suc m
    unfolding work
    work-le m [] l limit h = h
    work-le m (r ∷ rs) l limit h =
        elim (Bool-cases (l.worker.should_quit || should_stop c l.jobs_processed r.now)) [
          | inl stop ↦ rw stop h
          | inr go ↦ rw go (
              work-le m rs (round r l) limit (
                let room = room_left m l.jobs_processed r.now l.worker.should_quit limit go in
                let more = round-le r l in omega (arith, room, more)))
        ]
