-- ===== src/Telemetry/Room.antt =====
-- How many points the queue holds.
use route_mq.Prelude.{
  ℕ, zero, suc, ◌+◌, ◌≤◌, ◌<◌, ◌≡◌, refl, ap, ◌∙◌, inl, inr, Bool, true, false, List, [], ◌∷◌, ◌++◌,
  arith, leb, length, length-append, if◌then◌else◌, Bool-cases,
}
use route_mq.Telemetry.{
  Strategy, block, fail, drop_oldest, drop_newest, TelemetrySettings, WriteFailure, Adapter, State,
  full,
}
use route_mq.Telemetry.Manager.{
  Outcome, accepted, dropped, queue_full, waits, Progress, through, refused, waiting, Reply,
  raises_closed, is_empty, drain_batch, displace, drop_first, enqueue, enqueue_full, flush,
  flush_batch, record_errors, record_depth, flush_ready, enqueue_all, record_accepted,
  record_dropped, after_records, finish_writes, write_from, write_many, flush_all, close,
}
use route_mq.Telemetry.Runs.{Call, writes, resumes, flushes, closes, step, run}

module _ {P : Type 0} where
  length-drain_batch :
      (limit : ℕ) (ps : List P)
      → length (drain_batch limit ps).0 + length (drain_batch limit ps).1 ≡ length ps
  unfolding drain_batch
  length-drain_batch zero ps = omega arith
  length-drain_batch (suc limit) [] = omega arith
  length-drain_batch (suc limit) (p ∷ ps) = omega (arith, length-drain_batch limit ps)

  -- A batch takes a point from a queue that has one.
  drain_batch-lt :
      (limit : ℕ) (ps : List P)
      → 1 ≤ limit
      → is_empty ps ≡ false
      → length (drain_batch limit ps).1 < length ps
  unfolding drain_batch
  drain_batch-lt zero ps h k = absurd (omega (arith, h))
  drain_batch-lt (suc limit) [] h k = absurd (ground arith)
  drain_batch-lt (suc limit) (p ∷ ps) h k = omega (arith, length-drain_batch limit ps)

module _ {P : Type 0} {A : Adapter P} where
  record_errors-queue :
      (fs : List (WriteFailure P)) (m : State P A) → (record_errors fs m).queue ≡ m.queue
  record_errors-queue [] m = refl
  record_errors-queue (f ∷ fs) m = refl

  record_accepted-queue : (n : ℕ) (m : State P A) → (record_accepted n m).queue ≡ m.queue
  record_accepted-queue zero m = refl
  record_accepted-queue (suc n) m = refl

  record_dropped-queue : (n : ℕ) (m : State P A) → (record_dropped n m).queue ≡ m.queue
  record_dropped-queue zero m = refl
  record_dropped-queue (suc n) m = refl

module _ {P : Type 0} {A : Adapter P} (c : TelemetrySettings) where
  flush_batch-queue :
      (batch rest : List P) (m : State P A)
      → (flush_batch c batch (record m { queue = rest })).1.queue ≡ rest
  flush_batch-queue [] rest m = refl
  flush_batch-queue (p ∷ ps) rest m = record_errors-queue _ _

  flush-queue : (m : State P A) → (flush c m).1.queue ≡ (drain_batch c.batch_size m.queue).1
  unfolding flush
  flush-queue m =
      flush_batch-queue (drain_batch c.batch_size m.queue).0 (drain_batch c.batch_size m.queue).1 m

  flush-le : (m : State P A) → length (flush c m).1.queue ≤ length m.queue
  flush-le m =
      let left = ap length (flush-queue m) in
      omega (arith, left, length-drain_batch c.batch_size m.queue)

  pub flush-lt :
      (m : State P A)
      → 1 ≤ c.batch_size
      → is_empty m.queue ≡ false
      → length (flush c m).1.queue < length m.queue
  flush-lt m h k =
      let left = ap length (flush-queue m) in
      let less = drain_batch-lt c.batch_size m.queue h k in omega (arith, left, less)

  flush_ready-le :
      (fuel written : ℕ) (failures : List (WriteFailure P)) (m : State P A)
      → length (flush_ready c fuel written failures m).1.queue ≤ length m.queue
  unfolding flush_ready
  flush_ready-le zero written failures m = omega arith
  flush_ready-le (suc fuel) written failures m =
      elim (Bool-cases (leb c.batch_size (length m.queue))) [
        | inl ready ↦
            let result = (flush c m).0 in
            let rest =
              flush_ready-le fuel (written + result.written) (failures ++ result.failures)
                (flush c m).1 in
            rw (ready, flush_ready) (omega (arith, rest, flush-le m))
        | inr few ↦ rw (few, flush_ready) (omega arith)
      ]

  flush_all-le : (fuel : ℕ) (m : State P A) → length (flush_all c fuel m).queue ≤ length m.queue
  unfolding flush_all
  flush_all-le zero m = omega arith
  flush_all-le (suc fuel) m = elim (Bool-cases (is_empty m.queue)) [
    | inl empty ↦ rw (empty, flush_all) (omega arith)
    | inr filled ↦
        let rest = flush_all-le fuel (flush c m).1 in
        rw (filled, flush_all) (omega (arith, rest, flush-le m))
  ]

  close-le : (m : State P A) → length (close c m).queue ≤ length m.queue
  unfolding close
  close-le m = flush_all-le (length m.queue) (record m { closed = true })

  -- The queue is within its size.
  abbrev Within : State P A → Type 0
  Within m = length m.queue ≤ c.queue_max_size

  displace-lt :
      (m : State P A) → 1 ≤ length m.queue → length (displace m).queue + 1 ≤ length m.queue
  displace-lt m h = shorter m.queue refl
    where
      shorter : (ps : List P) → m.queue ≡ ps → length (drop_first ps m).queue + 1 ≤ length m.queue
      shorter [] e = let none_there = ap length e in absurd (omega (arith, h, none_there))
      shorter (q ∷ qs) e = let counted = ap length e in omega (arith, counted)

  enqueue_full-Within :
      (s : Strategy) (p : P) (m : State P A)
      → 1 ≤ length m.queue
      → Within m
      → Within (enqueue_full c s p m).1
  enqueue_full-Within block p m h k = k
  enqueue_full-Within fail p m h k = k
  enqueue_full-Within drop_newest p m h k = k
  enqueue_full-Within drop_oldest p m h k =
      let less = displace-lt m h in
      let grown = length-append (displace m).queue (p ∷ []) in omega (arith, less, grown, k)

  enqueue-Within :
      (p : P) (m : State P A) → 1 ≤ c.queue_max_size → Within m → Within (enqueue c p m).1
  unfolding enqueue
  enqueue-Within p m h k = elim (Bool-cases (full c m)) [
    | inl no_room ↦
        let some_there : 1 ≤ length m.queue = ground (arith, no_room, h) in
        rw no_room (enqueue_full-Within c.queue_full_strategy p m some_there k)
    | inr room ↦
        let less : length m.queue < c.queue_max_size = ground (arith, room, h) in
        let grown = length-append m.queue (p ∷ []) in rw room (omega (arith, less, grown))
  ]

  enqueue_all-Within :
      (ps : List P) (a d : ℕ) (m : State P A)
      → 1 ≤ c.queue_max_size
      → Within m
      → Within (enqueue_all c ps a d m).1
  unfolding enqueue_all
  enqueue_all-Within [] a d m h k = k
  enqueue_all-Within (p ∷ ps) a d m h k =
      let here = enqueue-Within p m h k in
      offered (enqueue c p m).0 refl here (enqueue_all-Within ps (a + 1) d (enqueue c p m).1 h here)
        (enqueue_all-Within ps a (d + 1) (enqueue c p m).1 h here)
    where
      offered :
          (o : Outcome)
          → (enqueue c p m).0 ≡ o
          → Within (enqueue c p m).1
          → Within (enqueue_all c ps (a + 1) d (enqueue c p m).1).1
          → Within (enqueue_all c ps a (d + 1) (enqueue c p m).1).1
          → Within (enqueue_all c (p ∷ ps) a d m).1
      offered accepted e here after_put after_drop = rw (e, enqueue_all) after_put
      offered dropped e here after_put after_drop = rw (e, enqueue_all) after_drop
      offered queue_full e here after_put after_drop = rw (e, enqueue_all) here
      offered waits e here after_put after_drop = rw (e, enqueue_all) here

  after_records-le : (a : ℕ) (m : State P A) → length (after_records c a m).1.queue ≤ length m.queue
  after_records-le a m = elim (Bool-cases (leb c.batch_size (length m.queue))) [
    | inl ready ↦ rw ready (flush_ready-le (length m.queue) 0 [] m)
    | inr few ↦ rw few (omega arith)
  ]

  finish_writes-Within :
      (progress : Progress P) (m : State P A) → Within m → Within (finish_writes c (progress, m)).1
  finish_writes-Within refused m k = k
  finish_writes-Within (waiting rest a d) m k = k
  finish_writes-Within (through a d) m k =
      let counted = record_accepted a m in
      let missed = record_dropped d counted in
      let flushed = after_records-le a (record_depth missed) in
      let same = ap length (record_dropped-queue d counted ∙ record_accepted-queue a m) in
      omega (arith, flushed, same, k)

  write_from-Within :
      (ps : List P) (a d : ℕ) (m : State P A)
      → 1 ≤ c.queue_max_size
      → Within m
      → Within (write_from c ps a d m).1
  unfolding write_from
  write_from-Within ps a d m h k =
      finish_writes-Within (enqueue_all c ps a d m).0 (enqueue_all c ps a d m).1
        (enqueue_all-Within ps a d m h k)

  if-Within :
      (b : Bool) (x y : Reply P × State P A)
      → Within x.1
      → Within y.1
      → Within (if b then x else y).1
  if-Within true x y h k = h
  if-Within false x y h k = k

  step-Within : (k : Call P) (m : State P A) → 1 ≤ c.queue_max_size → Within m → Within (step c k m)
  unfolding step write_many
  step-Within (writes ps) m h k =
      if-Within m.closed (raises_closed, m) (write_from c ps 0 0 m) k
        (write_from-Within ps 0 0 m h k)
  step-Within (resumes rest a d) m h k = write_from-Within rest a d m h k
  step-Within flushes m h k = omega (arith, flush-le m, k)
  step-Within closes m h k = omega (arith, close-le m, k)

  -- A queue that has a size never holds more points than that, over any calls.
  pub run-le :
      (ks : List (Call P)) (m : State P A)
      → 1 ≤ c.queue_max_size
      → length m.queue ≤ c.queue_max_size
      → length (run c ks m).queue ≤ c.queue_max_size
  unfolding run
  run-le [] m h k = k
  run-le (call ∷ ks) m h k = run-le ks (step c call m) h (step-Within call m h k)
