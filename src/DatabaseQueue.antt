-- ===== src/DatabaseQueue.antt =====
-- routemq/queue/database_queue.py: the job queue over two SQL tables, queue_jobs and
-- queue_failed_jobs. A time is a number of microseconds, and each reading of the clock is an
-- argument of the operation that makes it.
pub mod Operations
pub mod Claim
pub mod Failed
pub mod Reaper
pub mod History
use text.Mathlib.Text.{◌==◌ as str_eq}
use route_mq.Prelude.{
  ℕ, zero, suc, ◌+◌, ◌*◌, ◌-◌, Bool, true, false, not, ◌&&◌, Option, none, some, List, [], ◌∷◌, map,
  ltb, leb, ◌==◌, length, select, first, max, if◌then◌else◌,
}
use route_mq.Prelude.Int.{ℤ, pos, negsuc}
use route_mq.Text.{String}
use route_mq.Sql.{Keyed, Table}

-- The columns of `QueueJob` and of `QueueFailedJob`, but for the primary key.
pub record Job : Type 0 where
  pub queue : String
  pub payload : String
  pub attempts : ℕ
  pub reserved_at : Option ℕ
  pub available_at : ℕ
  pub created_at : ℕ

pub record FailedJob : Type 0 where
  pub connection : String
  pub queue : String
  pub payload : String
  pub exception : String
  pub failed_at : ℕ

-- What `pop` returns.
pub record Popped : Type 0 where
  pub id : ℕ
  pub payload : String
  pub attempts : ℕ

pub record Stats : Type 0 where
  pub ready : ℕ
  pub reserved : ℕ
  pub delayed : ℕ
  pub failed : ℕ
  pub oldest_ready_age : ℕ

-- The state of the database integration during one call: switched off, no session to be had, a
-- statement or the commit fails, the refresh after the commit fails, or all goes well.
pub data Backend : Type 0 where
  disabled no_session failing failing_refresh working : Backend

-- How a call ends.
pub data Reply (A : Type 0) : Type 0 where
  returns : A → Reply A
  raises : Reply A

-- What `json.loads(payload)` gives for `max_tries`: no JSON, JSON that is no object, an object
-- without the key, with a value that `int` refuses by a TypeError or ValueError, with an infinite
-- number, or with a value that `int` makes an integer.
pub data Decoded : Type 0 where
  not_json not_object absent no_integer infinite : Decoded
  integer : ℤ → Decoded

-- `_payload_max_tries`; `none` is the AttributeError of `.get`, or the OverflowError of `int`.
unfoldable pub payload_max_tries : Decoded → Option ℕ
payload_max_tries not_json = some 3
payload_max_tries not_object = none
payload_max_tries absent = some 3
payload_max_tries no_integer = some 3
payload_max_tries infinite = none
payload_max_tries (integer (pos n)) = some (max 1 n)
payload_max_tries (integer (negsuc n)) = some 1

abbrev pub seconds : ℕ → ℕ
seconds n = n * 1000000

abbrev pub is_none : Option ℕ → Bool
is_none none = true
is_none (some t) = false

-- The WHERE clauses.
abbrev pub at_job : ℕ → String → Keyed Job → Bool
at_job id queue r = r.id == id && str_eq r.columns.queue queue

abbrev pub is_ready : String → ℕ → Keyed Job → Bool
is_ready queue now r =
    str_eq r.columns.queue queue
    && (is_none r.columns.reserved_at && leb r.columns.available_at now)

abbrev pub reserved_before : Option ℕ → ℕ → ℕ → Bool
reserved_before none timeout now = false
reserved_before (some t) timeout now = ltb (t + timeout) now

-- `reserved_at < now - visibility_timeout`
abbrev pub is_expired : String → ℕ → ℕ → Keyed Job → Bool
is_expired queue visibility now r =
    str_eq r.columns.queue queue && reserved_before r.columns.reserved_at (seconds visibility) now

-- The two tables, and the JSON decoder as far as the queue uses it.
pub record Storage : Type 1 where
  pub jobs : Table Job
  pub failed_jobs : Table FailedJob
  pub decode : String → Decoded
