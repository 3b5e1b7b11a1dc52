-- ===== src/Telemetry.antt =====
-- routemq/telemetry/runtime.py: `TelemetryManager`, its queue of points, and the batches that it
-- gives to the adapter. The adapter is a parameter. A call runs as one step, but for a put into a
-- full queue under the strategy `block`, where it stops and is resumed later.
pub mod Writing
pub mod Places
pub mod Accounts
pub mod Manager
pub mod History
pub mod Fifo
pub mod Runs
pub mod Room
pub mod Emptied
use route_mq.Prelude.{
  ℕ, zero, suc, ◌+◌, Bool, true, false, not, ◌&&◌, List, [], ◌∷◌, ◌++◌, map, leb, ◌==◌, length,
  if◌then◌else◌,
}
use route_mq.Text.{String}

pub data Strategy : Type 0 where
  block fail drop_oldest drop_newest : Strategy

-- The settings that the manager reads; the numbers are not negative.
pub record TelemetrySettings : Type 0 where
  pub queue_max_size : ℕ
  pub queue_full_strategy : Strategy
  pub batch_size : ℕ
  pub max_retries : ℕ

module _ (P : Type 0) where
  -- The index is not negative.
  pub record WriteFailure : Type 0 where
    pub index : ℕ
    pub point : P
    pub error : String
    pub retriable : Bool

  pub record WriteResult : Type 0 where
    pub accepted : ℕ
    pub written : ℕ
    pub failures : List WriteFailure

  -- What the adapter does in time: it returns, or raises, or takes too long.
  pub data Answer : Type 0 where
    wrote : WriteResult → Answer
    raised : (error : String) → Answer

  -- The records of the manager. A record of a point that is dropped to make room has the point, and
  -- the span of a flush has its batch.
  pub data Event : Type 0 where
    points_accepted : (count : ℕ) → Event
    points_dropped : (count : ℕ) → Event
    oldest_dropped : P → Event
    queue_depth : (depth : ℕ) → Event
    flush_span : List P → Event
    write_batches : (count : ℕ) → Event
    points_flushed : (count : ℕ) → Event
    write_errors : (count : ℕ) → Event

  abbrev pub enumerate : ℕ → List P → List (ℕ × P)
  enumerate n [] = []
  enumerate n (p ∷ ps) = (n, p) ∷ enumerate (n + 1) ps

  abbrev pub points_of : List (ℕ × P) → List P
  points_of = map λ (i, p). p

  abbrev pub place_or : ℕ × P → List (ℕ × P) → ℕ → ℕ × P
  place_or own [] i = own
  place_or own (q ∷ qs) zero = q
  place_or own (q ∷ qs) (suc i) = place_or own qs i

  -- `_map_failure_to_original`
  abbrev pub map_failure_to_original : List (ℕ × P) → WriteFailure → ℕ × P
  map_failure_to_original pending f = place_or (f.index, f.point) pending f.index

pub record Adapter (P : Type 0) : Type 1 where
  pub World : Type 0
  pub write_many : List P → World → Answer P × World
  pub close : World → World

pub record State (P : Type 0) (A : Adapter P) : Type 0 where
  pub queue : List P
  pub closed : Bool
  pub events : List (Event P)
  pub world : A.World

module _ {P : Type 0} {A : Adapter P} where
  -- A queue without a size has no bound.
  abbrev pub full : TelemetrySettings → State P A → Bool
  full c m = not (c.queue_max_size == 0) && leb c.queue_max_size (length m.queue)

  abbrev pub put : P → State P A → State P A
  put p m = record m { queue = m.queue ++ p ∷ [] }

  -- A lifecycle record, the last one at the end.
  abbrev pub lifecycle : Event P → State P A → State P A
  lifecycle e m = record m { events = m.events ++ e ∷ [] }
