-- ===== src/RedisQueue.antt =====
-- routemq/queue/redis_queue.py: the keys of one queue, and the commands that `RedisQueue` sends. A
-- job stands for its JSON text, times are microseconds, and each reading of the clock is an argument
-- of the operation that makes it. No other client changes the keys while an operation runs.
pub mod Operations
pub mod Failed
pub mod Reaper
pub mod Copies
pub mod Due
pub mod Order
pub mod Loss
pub mod Ids
pub mod Handled
pub mod Reaped
use text.Mathlib.Text.{◌==◌ as str_eq}
use route_mq.Prelude.{ℕ, zero, suc, ◌+◌, Bool, true, false, ◌&&◌, Option, none, some, List, ◌==◌}
use route_mq.Text.{String}
use route_mq.Redis.{RedisList, SortedSet}
use route_mq.Sql.{Table}
use route_mq.DatabaseQueue.{FailedJob, Decoded, Reply, returns, raises}

-- The dict of a job. `id` is the number in its id, which is f'{queue}:{number}'.
pub record Entry : Type 0 where
  pub id : ℕ
  pub payload : String
  pub attempts : ℕ
  pub created_at : ℕ
  pub reserved_at : Option ℕ

-- The dict of a failed job; its id is f'failed:{queue}:{number}'.
pub record FailedEntry : Type 0 where
  pub id : ℕ
  pub job : FailedJob

abbrev pub same_time : Option ℕ → Option ℕ → Bool
same_time none none = true
same_time (some t) (some u) = t == u
same_time _ _ = false

-- Whether two texts are equal.
abbrev pub same_entry : Entry → Entry → Bool
same_entry a b =
    (a.id == b.id && str_eq a.payload b.payload)
    && ((a.attempts == b.attempts && a.created_at == b.created_at)
        && same_time a.reserved_at b.reserved_at)

abbrev pub same_job : FailedJob → FailedJob → Bool
same_job a b =
    (str_eq a.connection b.connection && str_eq a.queue b.queue)
    && ((str_eq a.payload b.payload && str_eq a.exception b.exception)
        && a.failed_at == b.failed_at)

abbrev pub same_failed : FailedEntry → FailedEntry → Bool
same_failed a b = a.id == b.id && same_job a.job b.job

-- The server, the table of failed jobs, and the JSON decoder as far as the reaper uses it.
pub record Storage : Type 1 where
  pub jobs : RedisList Entry same_entry
  pub failed_jobs : RedisList FailedEntry same_failed
  pub delayed_jobs : SortedSet Entry same_entry
  pub failed_table : Table FailedJob
  pub decode : String → Decoded

-- What happens to a command: it is answered, its request is lost, or only its answer.
pub data Fault : Type 0 where
  answered lost_request lost_reply : Fault

module _ (S : Storage) where
  open S use {jobs as job_list, failed_jobs as failed_list, delayed_jobs as job_set, failed_table}

  -- The keys of a queue, and the table.
  pub record Db : Type 0 where
    pub ready : job_list.State
    pub reserved : job_list.State
    pub delayed : job_set.State
    pub failed : failed_list.State
    pub table : failed_table.State

  -- The commands sent so far number the faults.
  pub record World : Type 0 where
    pub db : Db
    pub commands : ℕ
