-- ===== src/Telemetry/Manager.antt =====
-- The methods of `TelemetryManager`.
use route_mq.Prelude.{
  ℕ, zero, suc, ◌+◌, Bool, true, false, List, [], ◌∷◌, ◌++◌, leb, length, if◌then◌else◌,
}
use route_mq.Telemetry.{
  Strategy, block, fail, drop_oldest, drop_newest, TelemetrySettings, WriteFailure, WriteResult,
  points_accepted, points_dropped, oldest_dropped, queue_depth, flush_span, write_batches,
  points_flushed, write_errors, Adapter, State, full, put, lifecycle,
}
use route_mq.Telemetry.Writing.{write_with_retries}

pub data Outcome : Type 0 where
  accepted dropped queue_full waits : Outcome

-- How far a loop over points comes: through, to the exception TelemetryQueueFull, or to a put that
-- waits, with the points that are left and the counts of those before.
pub data Progress (P : Type 0) : Type 0 where
  through : (taken missed : ℕ) → Progress P
  refused : Progress P
  waiting : (rest : List P) → (taken missed : ℕ) → Progress P

pub data Reply (P : Type 0) : Type 0 where
  returns : WriteResult P → Reply P
  raises_closed : Reply P
  raises_full : Reply P
  -- a call that has not returned yet
  blocked : (rest : List P) → (taken missed : ℕ) → Reply P

module _ {P : Type 0} where
  abbrev pub is_empty : List P → Bool
  is_empty [] = true
  is_empty (p ∷ ps) = false

  -- `_drain_batch`: the batch, and what is left.
  unfoldable pub drain_batch : ℕ → List P → List P × List P
  drain_batch zero ps = ([], ps)
  drain_batch (suc limit) [] = ([], [])
  drain_batch (suc limit) (p ∷ ps) = let (batch, rest) = drain_batch limit ps in (p ∷ batch, rest)

  abbrev pub no_result : WriteResult P
  no_result = record { accepted = 0; written = 0; failures = [] }

module _ {P : Type 0} {A : Adapter P} where
  abbrev pub drop_first : List P → State P A → State P A
  drop_first [] m = m
  drop_first (q ∷ qs) m = lifecycle (oldest_dropped q) (record m { queue = qs })

  -- `get_nowait` for the strategy `drop_oldest`
  abbrev pub displace : State P A → State P A
  displace m = drop_first m.queue m

  abbrev pub record_errors : List (WriteFailure P) → State P A → State P A
  record_errors [] m = m
  record_errors (f ∷ fs) m = lifecycle (write_errors (length (f ∷ fs))) m

  abbrev pub record_depth : State P A → State P A
  record_depth m = lifecycle (queue_depth (length m.queue)) m

  abbrev pub record_accepted : ℕ → State P A → State P A
  record_accepted zero m = m
  record_accepted (suc n) m = lifecycle (points_accepted (suc n)) m

  abbrev pub record_dropped : ℕ → State P A → State P A
  record_dropped zero m = m
  record_dropped (suc n) m = lifecycle (points_dropped (suc n)) m

  abbrev pub answer_writes : ℕ → WriteResult P × State P A → Reply P × State P A
  answer_writes a (flushed, m) = (returns (record flushed { accepted = a }), m)

module _ {P : Type 0} {A : Adapter P} (c : TelemetrySettings) where
  abbrev pub enqueue_full : Strategy → P → State P A → Outcome × State P A
  enqueue_full block p m = (waits, m)
  enqueue_full fail p m = (queue_full, m)
  enqueue_full drop_oldest p m = (accepted, put p (displace m))
  enqueue_full drop_newest p m = (dropped, m)

  -- `_enqueue`
  unfoldable pub enqueue : P → State P A → Outcome × State P A
  enqueue p m = if full c m then enqueue_full c.queue_full_strategy p m else (accepted, put p m)

  abbrev pub flush_batch : List P → State P A → WriteResult P × State P A
  flush_batch [] m = (no_result, m)
  flush_batch (p ∷ ps) m =
      let (result, world) = write_with_retries A c.max_retries (p ∷ ps) m.world in
      let spanned = lifecycle (write_batches 1) (lifecycle (flush_span (p ∷ ps)) m) in
      let flushed = lifecycle (points_flushed result.written) (record spanned { world = world }) in
      (result, record_depth (record_errors result.failures flushed))

  unfoldable pub flush : State P A → WriteResult P × State P A
  unfolding drain_batch
  flush m =
      let (batch, rest) = drain_batch c.batch_size m.queue in
      flush_batch batch (record m { queue = rest })

  -- `_flush_ready_batches`, with the counts so far; the fuel is the length of the queue.
  unfoldable pub flush_ready :
      (fuel : ℕ) → (written : ℕ) → List (WriteFailure P) → State P A → WriteResult P × State P A
  unfolding flush
  flush_ready zero written failures m =
      (record { accepted = 0; written = written; failures = failures }, m)
  flush_ready (suc fuel) written failures m = elim (leb c.batch_size (length m.queue)) [
    | true ↦
        let (result, m') = flush m in
        flush_ready fuel (written + result.written) (failures ++ result.failures) m'
    | false ↦ (record { accepted = 0; written = written; failures = failures }, m)
  ]

  abbrev pub flush_ready_batches : State P A → WriteResult P × State P A
  flush_ready_batches m = flush_ready (length m.queue) 0 [] m

  unfoldable pub enqueue_all : List P → (taken missed : ℕ) → State P A → Progress P × State P A
  unfolding enqueue
  enqueue_all [] a d m = (through a d, m)
  enqueue_all (p ∷ ps) a d m =
      let (outcome, m') = enqueue p m in
      elim outcome [
        | accepted ↦ enqueue_all ps (a + 1) d m'
        | dropped ↦ enqueue_all ps a (d + 1) m'
        | queue_full ↦ (refused, m')
        | waits ↦ (waiting (p ∷ ps) a d, m')
      ]

  abbrev pub after_records : ℕ → State P A → Reply P × State P A
  after_records a m =
      answer_writes a
        (if leb c.batch_size (length m.queue) then flush_ready_batches m else (no_result, m))

  abbrev pub finish_writes : Progress P × State P A → Reply P × State P A
  finish_writes (refused, m) = (raises_full, m)
  finish_writes (waiting rest a d, m) = (blocked rest a d, m)
  finish_writes (through a d, m) =
      after_records a (record_depth (record_dropped d (record_accepted a m)))

  -- The loop over the points, and what comes after it; a call that was blocked goes on here.
  unfoldable pub write_from : List P → (taken missed : ℕ) → State P A → Reply P × State P A
  unfolding enqueue_all flush_ready
  write_from ps a d m = finish_writes (enqueue_all ps a d m)

  unfoldable pub write_many : List P → State P A → Reply P × State P A
  unfolding write_from
  write_many ps m = if m.closed then (raises_closed, m) else write_from ps 0 0 m

  -- The loop of `close`; the fuel is the length of the queue.
  unfoldable pub flush_all : ℕ → State P A → State P A
  unfolding flush
  flush_all zero m = m
  flush_all (suc fuel) m = elim (is_empty m.queue) [
    | true ↦ m
    | false ↦ (let (result, m') = flush m in flush_all fuel m')
  ]

  abbrev close_adapter : State P A → State P A
  close_adapter m = record m { world = A.close m.world }

  unfoldable pub close : State P A → State P A
  unfolding flush_all
  close m = close_adapter (flush_all (length m.queue) (record m { closed = true }))
