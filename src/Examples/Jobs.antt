-- ===== src/Examples/Jobs.antt =====
-- Runs of routemq/queue/database_queue.py.
use route_mq.Prelude.{
  ℕ, ◌+◌, ◌≡◌, ◌≢◌, refl, ◌⊎◌, Bool, true, false, Option, none, some, List, [], ◌∷◌, ◌++◌, arith,
  length, select, All,
}
use route_mq.Text.{String}
use route_mq.Sql.{Keyed}
use route_mq.Sql.Order
use route_mq.DatabaseQueue.{
  Job, FailedJob, Popped, Stats, returns, raises, working, failing, failing_refresh, is_ready,
  payload_max_tries,
}
use route_mq.DatabaseQueue.Operations.{
  Db, job_rows, failed_rows, push, pop, popped, claimable, release, heartbeat,
}
use route_mq.DatabaseQueue.Failed.{Sessions, retry_failed_job}
use route_mq.DatabaseQueue.Failed.Retry.{Moved, lookup_failed, retry_failed_job-moves}
use route_mq.DatabaseQueue.Reaper.{Reaping, reap_jobs, reap_expired, stats, size, queue_jobs}
use route_mq.DatabaseQueue.Reaper.Outcome.{
  expired, survivors, failures, columns_of, tries, reap_expired-IsReaped, reap_expired-raises,
}
use route_mq.DatabaseQueue.Reaper.Counts.{stats-counts}
use route_mq.DatabaseQueue.Claim.{reserved, pop-claims}
use route_mq.DatabaseQueue.History.{Call, pushes, pops, heartbeats, releases, IsOrdered, run}
use route_mq.DatabaseQueue.History.Held.{Spares}
use route_mq.DatabaseQueue.History.Exclusive.{pop-exclusive}
use route_mq.Examples.Tables.{storage}

abbrev row : ℕ → String → ℕ → Option ℕ → Keyed Job
row id payload attempts reserved = record {
  id = id;
  columns = record {
    queue = "default";
    payload = payload;
    attempts = attempts;
    reserved_at = reserved;
    available_at = 10;
    created_at = 10;
  };
}

abbrev dead : Keyed FailedJob
dead = record {
  id = 4;
  columns = record {
    connection = "database";
    queue = "default";
    payload = "d";
    exception = "boom";
    failed_at = 5;
  };
}

-- One job waits, one has been reserved at time 20 for the third time, and a third was once.
abbrev tables : Db storage
tables = record {
  jobs = record {
    stored = row 1 "a" 3 (some 20) ∷ row 2 "b" 0 none ∷ row 3 "c" 1 (some 20) ∷ [];
    next = 4;
  };
  failed_jobs = record { stored = dead ∷ []; next = 5 };
}

abbrev nobody : ℕ → Bool
nobody id = false

jobs-IsOrdered : Order.IsOrdered storage.jobs tables.jobs
jobs-IsOrdered = record { below = omega arith; ascending = omega arith }

tables-IsOrdered : IsOrdered storage tables
tables-IsOrdered = record {
  jobs = jobs-IsOrdered;
  failed = record { below = omega arith; ascending = omega arith };
}

abbrev taken : Popped
taken = record { id = 2; payload = "b"; attempts = 1 }

popped_first : (pop storage working nobody "default" 30 31 tables).0 ≡ returns (some taken)
unfolding pop
popped_first = refl

refresh_fails :
    pop storage failing_refresh nobody "default" 30 31 tables
    ≡ (returns none, (pop storage working nobody "default" 30 31 tables).1)
unfolding pop
refresh_fails = refl

abbrev later_calls : List Call
later_calls =
    pushes working "e" "default" 0 40 40
    ∷ heartbeats working 2 "default" 50
    ∷ pops working nobody "default" 60 60
    ∷ releases working 3 "default" 0 70
    ∷ []

pop-claims_example :
    (All (λ r. claimable nobody "default" 30 r ≡ false) (job_rows storage tables)
      × (pop storage working nobody "default" 30 31 tables ≡ (returns none, tables)))
    ⊎ ((before : List (Keyed Job)) × (j : Keyed Job) × (after : List (Keyed Job)) × (job_rows
            storage tables
          ≡ before ++ j ∷ after)
        × All (λ r. claimable nobody "default" 30 r ≡ false) before
        × (claimable nobody "default" 30 j ≡ true)
        × ((pop storage working nobody "default" 30 31 tables).0 ≡ returns (some (popped j)))
        × (job_rows storage (pop storage working nobody "default" 30 31 tables).1
            ≡ before ++ reserved 31 j ∷ after)
        × (failed_rows storage (pop storage working nobody "default" 30 31 tables).1
            ≡ failed_rows storage tables))
pop-claims_example = pop-claims storage nobody "default" 30 31 tables jobs-IsOrdered

spared : All (Spares 2 31) later_calls
spared = (tt, (λ e. omega arith, (tt, (λ e. omega arith, tt))))

abbrev next_taken : Popped
next_taken = record { id = 3; payload = "c"; attempts = 2 }

-- The waiting job and the new one are claimed, the reserved ones are not.
claims_in_turn :
    (pop storage working nobody "default" 80 80
      (run storage later_calls (pop storage working nobody "default" 30 31 tables).1)).0
    ≡ returns (some next_taken)
unfolding pop run push heartbeat release
claims_in_turn = refl

pop-exclusive_example : next_taken.id ≢ taken.id
pop-exclusive_example =
    pop-exclusive storage nobody "default" 30 31 tables taken jobs-IsOrdered popped_first
      later_calls spared working nobody "default" 80 80 next_taken claims_in_turn

abbrev long_after : Reaping
long_after = record { queue = "default"; visibility = 300; now = 400000000; message = "expired" }

tries_known :
    All (λ j. expired long_after j ≡ true → tries storage j ≢ none) (job_rows storage tables)
unfolding payload_max_tries
tries_known = (λ e p. cc, (λ e p. cc, (λ e p. cc, tt)))

reap_expired-IsReaped_example :
    (db' : Db storage) × (reap_expired storage working long_after tables
      ≡ (returns (length (select (expired long_after) (job_rows storage tables))), db'))
    × (job_rows storage db' ≡ survivors storage long_after (job_rows storage tables))
    × (columns_of (failed_rows storage db')
        ≡ columns_of (failed_rows storage tables)
          ++ failures storage long_after (job_rows storage tables))
reap_expired-IsReaped_example =
    reap_expired-IsReaped storage long_after tables jobs-IsOrdered tries_known

two_reaped : (reap_expired storage working long_after tables).0 ≡ returns 2
unfolding reap_expired payload_max_tries reap_jobs
two_reaped = refl

abbrev poisoned : Db storage
poisoned = record {
  jobs = record { stored = row 1 "a" 3 (some 20) ∷ row 2 "[]" 0 (some 20) ∷ []; next = 4 };
  failed_jobs = record { stored = []; next = 5 };
}

reap_expired-raises_example : reap_expired storage working long_after poisoned ≡ (raises, poisoned)
reap_expired-raises_example =
    reap_expired-raises storage long_after (row 1 "a" 3 (some 20) ∷ []) (row 2 "[]" 0 (some 20)) []
      poisoned refl refl refl

stats-counts_example :
    (s : Stats) × (stats storage working "default" 30 tables ≡ returns s)
    × (s.ready + s.reserved + s.delayed ≡ length (queue_jobs storage "default" tables))
    × (s.ready ≡ length (select (is_ready "default" 30) (job_rows storage tables)))
    × (size storage working "default" tables ≡ returns (s.ready + s.delayed))
stats-counts_example = stats-counts storage "default" 30 tables

abbrev good : Sessions
good = record { looks_up = working; pushes = working; forgets = failing }

retry_failed_job-moves_example :
    (((retry_failed_job storage good 4 70 71 tables).0 ≢ returns true)
      × ((retry_failed_job storage good 4 70 71 tables).1 ≡ tables))
    ⊎ ((r : Keyed FailedJob) × (lookup_failed storage 4 tables ≡ some r)
        × Moved storage 4 r 70 71 tables (retry_failed_job storage good 4 70 71 tables))
retry_failed_job-moves_example = retry_failed_job-moves storage good 4 70 71 tables

-- The forgetting fails, and the job stands in both tables.
copied : (retry_failed_job storage good 4 70 71 tables).0 ≡ raises
unfolding retry_failed_job
copied = refl
