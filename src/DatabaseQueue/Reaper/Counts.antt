-- ===== src/DatabaseQueue/Reaper/Counts.antt =====
-- The queue depths that `stats` and `size` report.
use route_mq.Prelude.{ℕ, ◌+◌, ◌≡◌, refl, sym, List, [], ◌∷◌, arith, select, length}
use text.Mathlib.Text.{◌==◌ as str_eq}
use route_mq.Text.{String}
use route_mq.Sql.{Keyed}
use route_mq.DatabaseQueue.{Job, Stats, Storage, returns, working, is_ready}
use route_mq.DatabaseQueue.Operations.{Db, job_rows}
use route_mq.DatabaseQueue.Reaper.{
  size, stats, queue_jobs, ready_jobs, delayed_jobs, reserved_jobs, unreserved,
}

count_parts :
    (now : ℕ) (js : List (Keyed Job))
    → length (ready_jobs now js) + length (reserved_jobs js) + length (delayed_jobs now js)
      ≡ length js
count_parts now [] = omega arith
count_parts now (j ∷ js) = ground (arith, count_parts now js)

count_unreserved :
    (queue : String) (now : ℕ) (js : List (Keyed Job))
    → let own = select (λ j. str_eq j.columns.queue queue) js in
      length (select (unreserved queue) js)
      ≡ length (ready_jobs now own) + length (delayed_jobs now own)
count_unreserved queue now [] = omega arith
count_unreserved queue now (j ∷ js) = ground (arith, count_unreserved queue now js)

count_ready :
    (queue : String) (now : ℕ) (js : List (Keyed Job))
    → length (select (is_ready queue now) js)
      ≡ length (ready_jobs now (select (λ j. str_eq j.columns.queue queue) js))
count_ready queue now [] = omega arith
count_ready queue now (j ∷ js) = ground (arith, count_ready queue now js)

-- On a working backend `stats` counts every job of the queue once, as ready, reserved or delayed;
-- ready are the jobs that `pop` would claim if no row were locked; and `size`, at any time, is the
-- number of the ready and the delayed jobs.
pub stats-counts :
    (S : Storage) (queue : String) (now : ℕ) (db : Db S)
    → (s : Stats) × (stats S working queue now db ≡ returns s)
      × (s.ready + s.reserved + s.delayed ≡ length (queue_jobs S queue db))
      × (s.ready ≡ length (select (is_ready queue now) (job_rows S db)))
      × (size S working queue db ≡ returns (s.ready + s.delayed))
unfolding stats size
stats-counts S queue now db = (
  _,
  refl,
  count_parts now (queue_jobs S queue db),
  sym (count_ready queue now (job_rows S db)),
  rw (count_unreserved queue now (job_rows S db)),
)
