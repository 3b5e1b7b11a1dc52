-- ===== src/RedisQueue/Copies/History.antt =====
-- Any calls of `RedisQueue`, one after another, under any faults.
use route_mq.Prelude.{
  ℕ, ◌+◌, ◌≤◌, ◌≡◌, refl, Bool, true, false, List, [], ◌∷◌, arith, if◌then◌else◌, ◌==◌, Option,
  none, some,
}
use route_mq.Text.{String}
use route_mq.DatabaseQueue.{Reply, FailedJob}
use route_mq.RedisQueue.{FailedEntry, Storage, Fault, World, Db}
use route_mq.RedisQueue.Operations.{
  Act, bound, pure, push, pop, release, delete, heartbeat, failed_entries, read, write, command,
}
use route_mq.RedisQueue.Failed.{
  failed, store_failed, find_failed, forget_failed_job, forget_found, remove_failed,
  retry_failed_job, retry_found, flush_failed_jobs, clear_failed, get_failed_job, list_failed_jobs,
  add_row, add_failed,
}
use route_mq.RedisQueue.Reaper.{Reaping, reap_expired}
use route_mq.RedisQueue.Copies.Moves.{copies}
use route_mq.RedisQueue.Copies.Calls.{
  Adds, if-Adds, then-Adds, or_else-Adds, read-Adds, write-Adds, carried-Adds, bound-Adds,
}
use route_mq.RedisQueue.Copies.Methods.{
  push-Adds, pop-Adds, release-Adds, delete-Adds, heartbeat-Adds,
}
use route_mq.RedisQueue.Copies.Reaping.{reap_expired-Adds}

-- A call with its arguments and its readings of the clock.
pub data Call : Type 0 where
  pushes : String → (delay stamp created now : ℕ) → Call
  pops : (now later : ℕ) → Call
  releases : (id delay now : ℕ) → Call
  deletes : (id : ℕ) → Call
  beats : (id now : ℕ) → Call
  reaps : Reaping → Call
  fails : Bool → FailedJob → (stamp : ℕ) → Call
  retries : (id stamp created now : ℕ) → Call
  forgets : (id : ℕ) → Call
  flushes : Call

module _ (S : Storage) (enabled : Bool) (faults : ℕ → Fault) where
  abbrev pub after : {A : Type 0} → Reply A × World S → World S
  after (r, w) = w

  -- The world after a call, however it ends.
  unfoldable pub step : Call → World S → World S
  step (pushes payload delay stamp created now) w =
      after (push S enabled faults payload delay stamp created now w)
  step (pops now later) w = after (pop S enabled faults now later w)
  step (releases id delay now) w = after (release S enabled faults id delay now w)
  step (deletes id) w = after (delete S enabled faults id w)
  step (beats id now) w = after (heartbeat S enabled faults id now w)
  step (reaps r) w = after (reap_expired S enabled faults r w)
  step (fails model f stamp) w = after (failed S enabled faults model f stamp w)
  step (retries id stamp created now) w =
      after (retry_failed_job S enabled faults id stamp created now w)
  step (forgets id) w = after (forget_failed_job S enabled faults id w)
  step flushes w = after (flush_failed_jobs S enabled faults w)

  unfoldable pub run : List Call → World S → World S
  unfolding step
  run [] w = w
  run (c ∷ cs) w = run cs (step c w)

  -- How often an id is given to a job by the calls.
  abbrev pub pushed : ℕ → List Call → ℕ
  pushed i [] = 0
  pushed i (pushes payload delay stamp created now ∷ cs) =
      (if stamp == i then 1 else 0) + pushed i cs
  pushed i (retries id stamp created now ∷ cs) = (if stamp == i then 1 else 0) + pushed i cs
  pushed i (_ ∷ cs) = pushed i cs

  module _ (i : ℕ) where
    choice-Adds :
        {A : Type 0} (b : Bool) (m k : Act S A)
        → Adds S i 0 m
        → Adds S i 0 k
        → Adds S i 0 (if b then m else k)
    choice-Adds true m k h l = h
    choice-Adds false m k h l = l

    -- A change of the failed jobs only.
    tell-Adds :
        (f : Db S → Db S)
        → ((db : Db S) → copies S i (f db) ≡ copies S i db)
        → Adds S i 0 (write S enabled faults f)
    tell-Adds f h = write-Adds S i enabled faults 0 f (λ db. let same = h db in omega (arith, same))

    failed-Adds :
        (model : Bool) (f : FailedJob) (stamp : ℕ)
        → Adds S i 0 (failed S enabled faults model f stamp)
    unfolding failed
    failed-Adds model f stamp =
        let entry : FailedEntry = record { id = stamp; job = f } in
        let to_table = write S enabled faults (add_row S enabled faults f) in
        let to_redis = write S enabled faults (add_failed S enabled faults entry) in
        or_else-Adds S i 0 (store_failed S enabled faults model f stamp) tt (
          choice-Adds model to_table (if enabled then to_redis else pure S tt)
            (tell-Adds (add_row S enabled faults f) (λ db. refl))
            (choice-Adds enabled to_redis (pure S tt)
              (tell-Adds (add_failed S enabled faults entry) (λ db. refl)) (λ w. omega arith)))

    forget_found-Adds : (o : Option FailedEntry) → Adds S i 0 (forget_found S enabled faults o)
    forget_found-Adds none = λ w. omega arith
    forget_found-Adds (some f) =
        then-Adds S i 0 (write S enabled faults (remove_failed S enabled faults f))
          (λ (u : Unit). pure S true) (tell-Adds (remove_failed S enabled faults f) (λ db. refl))
          (λ u w. omega arith)

    forget-Adds : (id : ℕ) → Adds S i 0 (forget_failed_job S enabled faults id)
    unfolding forget_failed_job
    forget-Adds id =
        let listed = read S enabled faults (failed_entries S) in
        let next : List FailedEntry → Act S Bool =
          λ fs. forget_found S enabled faults (find_failed S enabled faults id fs) in
        if-Adds S i 0 enabled (λ w. bound S next (listed w)) (pure S false)
          (then-Adds S i 0 listed next (read-Adds S i enabled faults (failed_entries S))
            (λ fs. forget_found-Adds (find_failed S enabled faults id fs)))
          (λ w. omega arith)

    list-Adds : Adds S i 0 (list_failed_jobs S enabled faults)
    unfolding list_failed_jobs
    list-Adds =
        if-Adds S i 0 enabled (read S enabled faults (failed_entries S)) (pure S [])
          (read-Adds S i enabled faults (failed_entries S)) (λ w. omega arith)

    get-Adds : (id : ℕ) → Adds S i 0 (get_failed_job S enabled faults id)
    unfolding get_failed_job
    get-Adds id =
        then-Adds S i 0 (list_failed_jobs S enabled faults)
          (λ fs. pure S (find_failed S enabled faults id fs)) list-Adds (λ fs w. omega arith)

    retry_found-Adds :
        (id stamp created now : ℕ) (o : Option FailedEntry)
        → Adds S i
            (if stamp == i then 1 else 0)
            (retry_found S enabled faults id stamp created now o)
    retry_found-Adds id stamp created now none w = omega arith
    retry_found-Adds id stamp created now (some f) w =
        let again = push S enabled faults f.job.payload 0 stamp created now in
        let pushed_again = push-Adds S i enabled faults f.job.payload 0 stamp created now w in
        let forgotten =
          bound-Adds S i 0 (λ (u : Unit). forget_failed_job S enabled faults id)
            (λ u. forget-Adds id) (again w) in
        omega (arith, pushed_again, forgotten)

    retry-Adds :
        (id stamp created now : ℕ)
        → Adds S i
            (if stamp == i then 1 else 0)
            (retry_failed_job S enabled faults id stamp created now)
    unfolding retry_failed_job
    retry-Adds id stamp created now =
        then-Adds S i (if stamp == i then 1 else 0) (get_failed_job S enabled faults id)
          (retry_found S enabled faults id stamp created now) (get-Adds id)
          (retry_found-Adds id stamp created now)

    flush-Adds : Adds S i 0 (flush_failed_jobs S enabled faults)
    unfolding flush_failed_jobs
    flush-Adds =
        if-Adds S i 0 enabled (command S enabled faults (clear_failed S enabled faults)) (pure S 0)
          (λ w.
            carried-Adds S i 0 (faults w.commands) (clear_failed S enabled faults w.db) w
              (omega arith))
          (λ w. omega arith)

    step-le :
        (c : Call) (w : World S) → copies S i (step c w).db ≤ copies S i w.db + pushed i (c ∷ [])
    unfolding step
    step-le (pushes payload delay stamp created now) w =
        let h = push-Adds S i enabled faults payload delay stamp created now w in omega (arith, h)
    step-le (pops now later) w = pop-Adds S i enabled faults now later w
    step-le (releases id delay now) w = release-Adds S i enabled faults id delay now w
    step-le (deletes id) w = delete-Adds S i enabled faults id w
    step-le (beats id now) w = heartbeat-Adds S i enabled faults id now w
    step-le (reaps r) w = reap_expired-Adds S i enabled faults r w
    step-le (fails model f stamp) w = failed-Adds model f stamp w
    step-le (retries id stamp created now) w =
        let h = retry-Adds id stamp created now w in omega (arith, h)
    step-le (forgets id) w = forget-Adds id w
    step-le flushes w = flush-Adds w

    pushed-cons : (c : Call) (cs : List Call) → pushed i (c ∷ cs) ≡ pushed i (c ∷ []) + pushed i cs
    pushed-cons (pushes payload delay stamp created now) cs = omega arith
    pushed-cons (retries id stamp created now) cs = omega arith
    pushed-cons (pops now later) cs = omega arith
    pushed-cons (releases id delay now) cs = omega arith
    pushed-cons (deletes id) cs = omega arith
    pushed-cons (beats id now) cs = omega arith
    pushed-cons (reaps r) cs = omega arith
    pushed-cons (fails model f stamp) cs = omega arith
    pushed-cons (forgets id) cs = omega arith
    pushed-cons flushes cs = omega arith

    -- Over any calls, under any failures of the connection, the number of jobs with an id that
    -- wait, are delayed or are reserved grows by no more than the pushes, a retry's included, that
    -- give this id: no other call makes a second copy of a job.
    pub run-copies :
        (cs : List Call) (w : World S) → copies S i (run cs w).db ≤ copies S i w.db + pushed i cs
    unfolding run
    run-copies [] w = omega arith
    run-copies (c ∷ cs) w =
        let here = step-le c w in
        let rest = run-copies cs (step c w) in omega (arith, here, rest, pushed-cons c cs)
