-- ===== src/Examples/Work.antt =====
-- Runs of routemq/queue/queue_worker.py.
use route_mq.Prelude.{Option, List, ℕ, suc, ◌+◌, ◌≡◌, refl, arith, true, false, none, some, [], ◌∷◌}
use route_mq.QueueWorker.{
  Reply, other, returns, raises, running, in_time, deleted, released, job_started, job_succeeded,
  job_retried, job_failed, job_dead_lettered, JobData, Driver, Tasks, Worker, process_job,
  attempt_job, settle_job, fail_job, run_job,
}
use route_mq.QueueWorker.Settled.{settled, once, process_job-Settles}
use route_mq.Prelude.{◌≤◌, ◌+◌}
use route_mq.QueueWorker.Loop.{
  Limits, Round, LoopState, should_stop, take_job, work, work-Counts, work-le,
}
use route_mq.QueueWorker.Failures.{process_job-loses, process_job-stays}

-- A driver that always succeeds; the world counts the calls.
abbrev count_calls : Driver ℕ
count_calls = record {
  release = λ id delay w. (returns tt, suc w);
  delete = λ id w. (returns tt, suc w);
  failed = λ payload e w. (returns tt, suc w);
  heartbeats = λ w. (returns tt, w);
}

-- Jobs that always raise, and so does their `failed` hook.
abbrev stubborn : Tasks ℕ ℕ
stubborn = record {
  unserialize = λ payload w. (returns 3, w);
  handle = λ job w. (in_time (raises (other 7)), w);
  failed = λ job e w. (raises (other 8), w);
  serialize = λ job w. (returns "job", w);
  retry_delay = λ job attempts w. (returns 5, w);
  max_tries = λ job. 3;
}

abbrev idle : Worker ℕ
idle = record {
  world = 0;
  state = running;
  should_quit = false;
  current_job_id = none;
  jobs_failed = 0;
  has_heartbeat = false;
  log = [];
}

abbrev taken : ℕ → JobData
taken n = record { id = 4; payload = "job"; attempts = n }

logs :
    ((process_job count_calls stubborn none (taken 1) idle).1.log
      ≡ job_retried 5 ∷ released 5 true ∷ job_started ∷ [])
    × ((process_job count_calls stubborn none (taken 3) idle).1.log
        ≡ deleted true ∷ job_failed (other 7) ∷ job_started ∷ [])
    × ((process_job count_calls stubborn (some 2) (taken 3) idle).1.log
        ≡ deleted true ∷ job_dead_lettered ∷ [])
unfolding process_job attempt_job settle_job fail_job run_job
logs = (refl, refl, refl)

process_job-Settles_example :
    settled (process_job count_calls stubborn none (taken 1) idle).1.log
    ≡ once (process_job count_calls stubborn none (taken 1) idle).0 + 0
process_job-Settles_example =
    process_job-Settles count_calls stubborn none (taken 1) idle (λ w. refl)

process_job-loses_example :
    ((process_job count_calls stubborn none (taken 3) idle).0 ≡ returns tt)
    × ((process_job count_calls stubborn none (taken 3) idle).1.world ≡ 1)
    × ((process_job count_calls stubborn none (taken 3) idle).1.log
        ≡ deleted true ∷ job_failed (other 7) ∷ job_started ∷ [])
process_job-loses_example =
    process_job-loses count_calls stubborn none (taken 3) idle 3 (other 7) (other 8) (returns tt) 0
      0 0 1 1 refl refl refl refl refl refl refl

-- A driver whose heartbeats raise, and jobs that succeed.
abbrev faint : Driver ℕ
faint = record count_calls { heartbeats = λ w. (raises (other 9), w) }

abbrev docile : Tasks ℕ ℕ
docile = record stubborn { handle = λ job w. (in_time (returns tt), w) }

process_job-stays_example :
    ((process_job faint docile none (taken 1) idle).0 ≡ raises (other 9))
    × ((process_job faint docile none (taken 1) idle).1.current_job_id ≡ some 4)
    × ((process_job faint docile none (taken 1) idle).1.log
        ≡ job_succeeded ∷ deleted true ∷ job_started ∷ [])
process_job-stays_example =
    process_job-stays faint docile none (taken 1) idle 3 (other 9) 0 0 1 1 refl refl (omega arith)
      refl refl

-- A queue that always has a job, whose reaper raises in the first round.
abbrev pop_job : ℕ → Reply (Option JobData) × ℕ
pop_job w = (returns (some (taken 1)), w)

abbrev reap_fails : ℕ → Reply Unit × ℕ
reap_fails w = (raises (other 6), w)

abbrev two_jobs : Limits
two_jobs = record { max_jobs = some 2; max_time = none; start_time = 10; reaper_interval = 60 }

abbrev round_at : ℕ → Round
round_at now = record { now = now; paused = false; stopped = false }

abbrev rounds : List Round
rounds =
    round_at 100
    ∷ round_at 101
    ∷ record (round_at 102) { paused = true }
    ∷ round_at 103
    ∷ round_at 104
    ∷ []

abbrev at_start : LoopState ℕ
at_start = record { worker = idle; jobs_processed = 0; last_reaper_run = 0 }

worked :
    (work count_calls docile none pop_job reap_fails two_jobs rounds at_start).jobs_processed ≡ 2
unfolding work take_job should_stop process_job attempt_job run_job
worked = refl

work-Counts_example :
    settled (work count_calls docile none pop_job reap_fails two_jobs rounds at_start).worker.log
      + 0
    ≡ 0 + (work count_calls docile none pop_job reap_fails two_jobs rounds at_start).jobs_processed
work-Counts_example =
    work-Counts count_calls docile none pop_job reap_fails two_jobs (λ w. refl) rounds at_start

work-le_example :
    (work count_calls docile none pop_job reap_fails two_jobs rounds at_start).jobs_processed ≤ 2
work-le_example =
    work-le count_calls docile none pop_job reap_fails two_jobs 1 rounds at_start refl (omega arith)
