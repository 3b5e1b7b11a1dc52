-- ===== src/Telemetry/Emptied.antt =====
-- The loops of `TelemetryManager` that flush the queue come to an end, and how far.
use route_mq.Prelude.{
  ℕ, zero, suc, ◌+◌, ◌≤◌, ◌<◌, ◌≡◌, refl, sym, ap, ◌∙◌, inl, inr, Bool, true, false, List, [], ◌∷◌,
  ◌++◌, arith, leb, length, append-nil, if◌then◌else◌, Bool-cases,
}
use route_mq.Telemetry.{TelemetrySettings, WriteFailure, Adapter, State}
use route_mq.Telemetry.Manager.{
  Progress, through, refused, waiting, Reply, raises_closed, returns, is_empty, drain_batch, flush,
  flush_batch, record_errors, record_depth, flush_ready, enqueue_all, record_accepted,
  record_dropped, after_records, finish_writes, write_from, write_many, flush_all, close,
}
use route_mq.Telemetry.Room.{flush-lt}
use route_mq.Telemetry.History.{released, close-history}

module _ {P : Type 0} where
  filled_queue : (ps : List P) → 1 ≤ length ps → is_empty ps ≡ false
  filled_queue [] h = absurd (omega (arith, h))
  filled_queue (p ∷ ps) h = refl

  empty_queue : (ps : List P) → length ps ≤ 0 → is_empty ps ≡ true
  empty_queue [] h = refl
  empty_queue (p ∷ ps) h = absurd (omega (arith, h))

  is_empty→≡ : (ps : List P) → is_empty ps ≡ true → ps ≡ []
  is_empty→≡ [] h = refl
  is_empty→≡ (p ∷ ps) h = absurd (ground arith)

module _ {P : Type 0} {A : Adapter P} (c : TelemetrySettings) where
  flush_ready-lt :
      (fuel written : ℕ) (failures : List (WriteFailure P)) (m : State P A)
      → 1 ≤ c.batch_size
      → length m.queue ≤ fuel
      → length (flush_ready c fuel written failures m).1.queue < c.batch_size
  unfolding flush_ready
  flush_ready-lt zero written failures m h k = omega (arith, h, k)
  flush_ready-lt (suc fuel) written failures m h k =
      elim (Bool-cases (leb c.batch_size (length m.queue))) [
        | inl ready ↦
            let filled : is_empty m.queue ≡ false =
              filled_queue m.queue (ground (arith, ready, h)) in
            let less = flush-lt c m h filled in
            let result = (flush c m).0 in
            rw (ready, flush_ready)
              (flush_ready-lt fuel (written + result.written) (failures ++ result.failures)
                (flush c m).1 h (omega (arith, less, k)))
        | inr few ↦ rw (few, flush_ready) (ground (arith, few))
      ]

  flush_all-nil :
      (fuel : ℕ) (m : State P A)
      → 1 ≤ c.batch_size
      → length m.queue ≤ fuel
      → is_empty (flush_all c fuel m).queue ≡ true
  unfolding flush_all
  flush_all-nil zero m h k = empty_queue m.queue k
  flush_all-nil (suc fuel) m h k = elim (Bool-cases (is_empty m.queue)) [
    | inl empty ↦ rw (empty, flush_all) empty
    | inr filled ↦
        let less = flush-lt c m h filled in
        rw (filled, flush_all) (flush_all-nil fuel (flush c m).1 h (omega (arith, less, k)))
  ]

  record_errors-closed :
      (fs : List (WriteFailure P)) (m : State P A) → (record_errors fs m).closed ≡ m.closed
  record_errors-closed [] m = refl
  record_errors-closed (f ∷ fs) m = refl

  flush-closed : (m : State P A) → (flush c m).1.closed ≡ m.closed
  unfolding flush
  flush-closed m = closed_batch (drain_batch c.batch_size m.queue).0 _
    where
      closed_batch :
          (batch rest : List P)
          → (flush_batch c batch (record m { queue = rest })).1.closed ≡ m.closed
      closed_batch [] rest = refl
      closed_batch (p ∷ ps) rest = record_errors-closed _ _

  flush_all-closed : (fuel : ℕ) (m : State P A) → (flush_all c fuel m).closed ≡ m.closed
  unfolding flush_all
  flush_all-closed zero m = refl
  flush_all-closed (suc fuel) m = elim (Bool-cases (is_empty m.queue)) [
    | inl empty ↦ rw (empty, flush_all) refl
    | inr filled ↦ rw (filled, flush_all) (flush_all-closed fuel (flush c m).1 ∙ flush-closed m)
  ]

  -- Where batches have a size, closing comes to an end with the manager closed and the queue empty:
  -- all points that were in it have left it, in their order.
  pub close-empties :
      (m : State P A)
      → 1 ≤ c.batch_size
      → ((close c m).closed ≡ true)
        × ((close c m).queue ≡ [])
        × (released (close c m).events ≡ released m.events ++ m.queue)
  unfolding close
  close-empties m h =
      let started : State P A = record m { closed = true } in
      let emptied : (flush_all c (length m.queue) started).queue ≡ [] =
        is_empty→≡ _ (flush_all-nil (length m.queue) started h (omega arith)) in
      (
        flush_all-closed (length m.queue) started,
        emptied,
        sym (append-nil (released (close c m).events))
            ∙ ap (λ ps. released (close c m).events ++ ps) (sym emptied)
            ∙ close-history c m,
      )

  -- A reply with a result is given when less than a batch is left.
  abbrev pub Leaves : Reply P × State P A → Type 0
  Leaves (returns r, m) = length m.queue < c.batch_size
  Leaves (_, m) = Unit

  after_records-lt :
      (a : ℕ) (m : State P A)
      → 1 ≤ c.batch_size
      → length (after_records c a m).1.queue < c.batch_size
  after_records-lt a m h = elim (Bool-cases (leb c.batch_size (length m.queue))) [
    | inl ready ↦ rw ready (flush_ready-lt (length m.queue) 0 [] m h (omega arith))
    | inr few ↦ rw few (ground (arith, few))
  ]

  finish_writes-Leaves :
      (progress : Progress P) (m : State P A)
      → 1 ≤ c.batch_size
      → Leaves (finish_writes c (progress, m))
  finish_writes-Leaves refused m h = tt
  finish_writes-Leaves (waiting rest a d) m h = tt
  finish_writes-Leaves (through a d) m h =
      after_records-lt a (record_depth (record_dropped d (record_accepted a m))) h

  if-Leaves :
      (b : Bool) (x y : Reply P × State P A) → Leaves x → Leaves y → Leaves (if b then x else y)
  if-Leaves true x y h k = h
  if-Leaves false x y h k = k

  -- Where batches have a size, a write that returns leaves less than a batch in the queue.
  pub write_many-Leaves :
      (ps : List P) (m : State P A) → 1 ≤ c.batch_size → Leaves (write_many c ps m)
  unfolding write_many write_from
  write_many-Leaves ps m h =
      if-Leaves m.closed (raises_closed, m) (write_from c ps 0 0 m) tt
        (finish_writes-Leaves (enqueue_all c ps 0 0 m).0 (enqueue_all c ps 0 0 m).1 h)
