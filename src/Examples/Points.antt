-- ===== src/Examples/Points.antt =====
-- Runs of routemq/telemetry/runtime.py.
use route_mq.Prelude.{ℕ, zero, suc, ◌≤◌, ◌≡◌, refl, true, false, List, [], ◌∷◌, ◌++◌, arith, length}
use route_mq.Telemetry.{drop_oldest, TelemetrySettings, Answer, wrote, Adapter, State}
use route_mq.Telemetry.Writing.{write_with_retries, write_pending}
use route_mq.Telemetry.Places.{Fits, IsAccounted}
use route_mq.Telemetry.Accounts.{write_with_retries-IsAccounted}
use route_mq.Telemetry.Manager.{write_many, close}
use route_mq.Telemetry.History.{released, history}
use route_mq.Telemetry.Fifo.{Part}
use route_mq.Telemetry.Runs.{Call, writes, flushes, closes, run, all_offered, run-queues}
use route_mq.Telemetry.Room.{run-le}
use route_mq.Telemetry.Emptied.{close-empties}

-- The answer of an adapter that rejects the first point of a batch for so many times.
abbrev answer : List ℕ → ℕ → Answer ℕ × ℕ
answer [] n = (wrote (record { accepted = 0; written = 0; failures = [] }), n)
answer (p ∷ ps) zero =
    (wrote (record { accepted = suc (length ps); written = suc (length ps); failures = [] }), zero)
answer (p ∷ ps) (suc n) = (
  wrote (record {
    accepted = suc (length ps);
    written = length ps;
    failures = record { index = 0; point = p; error = "busy"; retriable = true } ∷ [];
  }),
  n,
)

abbrev adapter : Adapter ℕ
adapter = record { World = ℕ; write_many = answer; close = λ n. n }

answer-Fits : (ps : List ℕ) (n : ℕ) → Fits ps (answer ps n).0
answer-Fits [] n = (omega arith, tt)
answer-Fits (p ∷ ps) zero = (omega arith, tt)
answer-Fits (p ∷ ps) (suc n) = (omega arith, (refl, tt))

abbrev settings : TelemetrySettings
settings = record {
  queue_max_size = 3;
  queue_full_strategy = drop_oldest;
  batch_size = 2;
  max_retries = 1;
}

abbrev manager : State ℕ adapter
manager = record { queue = 7 ∷ []; closed = false; events = []; world = 3 }

abbrev calls : List (Call ℕ)
calls = writes (1 ∷ 2 ∷ 3 ∷ []) ∷ flushes ∷ writes (4 ∷ []) ∷ closes ∷ writes (5 ∷ []) ∷ []

-- The first attempt leaves a point, and so does the second, which is the last.
reported : (write_with_retries adapter 1 (8 ∷ 9 ∷ []) 3).0 ≡ record {
  accepted = 2;
  written = 1;
  failures = record { index = 0; point = 8; error = "busy"; retriable = true } ∷ [];
}
unfolding write_pending
reported = refl

-- The fourth point has no room, and the oldest one makes way for it.
in_order : history (run settings calls manager) ≡ 7 ∷ 1 ∷ 2 ∷ 3 ∷ 4 ∷ []
unfolding run close write_many write_pending
in_order = refl

write_with_retries-IsAccounted_example :
    IsAccounted (8 ∷ 9 ∷ []) (write_with_retries adapter 1 (8 ∷ 9 ∷ []) 3).0
write_with_retries-IsAccounted_example =
    write_with_retries-IsAccounted adapter answer-Fits 1 (8 ∷ 9 ∷ []) 3

run-queues_example :
    (taken : List ℕ) × Part taken (all_offered calls)
    × (history (run settings calls manager) ≡ history manager ++ taken)
run-queues_example = run-queues settings calls manager

run-le_example : length (run settings calls manager).queue ≤ 3
run-le_example = run-le settings calls manager (omega arith) (omega arith)

close-empties_example :
    ((close settings manager).closed ≡ true)
    × ((close settings manager).queue ≡ [])
    × (released (close settings manager).events ≡ released manager.events ++ manager.queue)
close-empties_example = close-empties settings manager (omega arith)
