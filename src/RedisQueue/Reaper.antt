-- ===== src/RedisQueue/Reaper.antt =====
-- `reap_expired` of `RedisQueue`.
use route_mq.Prelude.{
  ℕ, ◌+◌, Bool, true, false, Option, none, some, List, [], ◌∷◌, leb, if◌then◌else◌,
}
use route_mq.Text.{String}
use route_mq.DatabaseQueue.{FailedJob, returns, raises, payload_max_tries}
use route_mq.RedisQueue.{Entry, Storage, Fault}
use route_mq.RedisQueue.Operations.{
  Act, bound, reserved_jobs, push_ready, drop_reserved, read, write, unreserved,
  reserved_job_expired,
}
use route_mq.RedisQueue.Failed.{failed}

-- `message` is the text "Job reservation expired after {visibility}s visibility timeout".
pub record Reaping : Type 0 where
  pub queue : String
  pub visibility : ℕ
  pub now : ℕ
  -- the clock when the reaper has handled a number of jobs, for the ids and times of failed jobs
  pub clock : ℕ → ℕ
  pub message : String
  pub model_enabled : Bool

module _ (S : Storage) (enabled : Bool) (faults : ℕ → Fault) where
  open S use {decode}

  infixl 5 ◌>>=◌ ◌>>◌
  abbrev ◌>>=◌ : {A B : Type 0} → Act S A → (A → Act S B) → Act S B
  ◌>>=◌ m f w = bound S f (m w)

  abbrev ◌>>◌ : {A B : Type 0} → Act S A → Act S B → Act S B
  ◌>>◌ m k w = bound S (λ a. k) (m w)

  abbrev pub expired : Reaping → Entry → Bool
  expired r e = reserved_job_expired r.now r.visibility e.reserved_at

  abbrev pub expired_job : Reaping → ℕ → Entry → FailedJob
  expired_job r n e = record {
    connection = "redis";
    queue = r.queue;
    payload = e.payload;
    exception = r.message;
    failed_at = r.clock n;
  }

  -- To the failed jobs, or back to the waiting ones; `none` is an exception of the JSON decoder.
  abbrev pub dispose : Reaping → ℕ → Entry → Option ℕ → Act S Unit
  dispose r n e none w = (raises, w)
  dispose r n e (some tries) w =
      if leb tries e.attempts
      then failed S enabled faults r.model_enabled (expired_job r n e) (r.clock n) w
      else write S enabled faults (push_ready S (unreserved S enabled faults e)) w

  abbrev pub reap_job : Reaping → ℕ → Entry → Act S Unit
  reap_job r n e =
      write S enabled faults (drop_reserved S e)
      >> dispose r n e (payload_max_tries (decode e.payload))

  unfoldable pub reap_jobs : Reaping → ℕ → List Entry → Act S ℕ
  unfolding failed
  reap_jobs r n [] w = (returns n, w)
  reap_jobs r n (e ∷ es) w = elim (expired r e) [
    | true ↦ bound S (λ u. reap_jobs r (n + 1) es) (reap_job r n e w)
    | false ↦ reap_jobs r n es w
  ]

  unfoldable pub reap_expired : Reaping → Act S ℕ
  unfolding reap_jobs
  reap_expired r w =
      if enabled
      then ((read S enabled faults (reserved_jobs S) >>= reap_jobs r 0) w)
      else (returns 0, w)
