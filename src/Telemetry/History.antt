-- ===== src/Telemetry/History.antt =====
-- All points that have been put into the queue, and what each call of `TelemetryManager` makes of
-- them.
use route_mq.Prelude.{
  ℕ, zero, suc, ◌≡◌, refl, sym, ap, ◌∙◌, inl, inr, true, List, [], ◌∷◌, ◌++◌, append-nil,
  append_assoc, leb, length, Bool-cases,
}
use route_mq.Telemetry.{
  Strategy, block, fail, drop_oldest, drop_newest, TelemetrySettings, WriteFailure, Event,
  points_accepted, points_dropped, oldest_dropped, queue_depth, flush_span, write_batches,
  points_flushed, write_errors, Adapter, State, full, put, lifecycle,
}
use route_mq.Telemetry.Writing.{write_with_retries}
use route_mq.Telemetry.Manager.{
  Outcome, accepted, is_empty, drain_batch, displace, drop_first, enqueue, enqueue_full, flush,
  flush_batch, record_errors, flush_ready, record_accepted, record_dropped, flush_all, close,
}

module _ {P : Type 0} where
  -- The points that an event takes out of the queue.
  abbrev pub leaving : Event P → List P
  leaving (oldest_dropped p) = p ∷ []
  leaving (flush_span ps) = ps
  leaving _ = []

  abbrev pub released : List (Event P) → List P
  released [] = []
  released (e ∷ es) = leaving e ++ released es

  pub released-append : (es fs : List (Event P)) → released (es ++ fs) ≡ released es ++ released fs
  released-append [] fs = refl
  released-append (e ∷ es) fs =
      ap (λ ps. leaving e ++ ps) (released-append es fs)
      ∙ sym (append_assoc (leaving e) (released es) (released fs))

  pub drain_batch-append :
      (limit : ℕ) (ps : List P) → (drain_batch limit ps).0 ++ (drain_batch limit ps).1 ≡ ps
  unfolding drain_batch
  drain_batch-append zero ps = refl
  drain_batch-append (suc limit) [] = refl
  drain_batch-append (suc limit) (p ∷ ps) = ap (◌∷◌ p) (drain_batch-append limit ps)

  abbrev pub put_points : Outcome → P → List P
  put_points accepted p = p ∷ []
  put_points _ p = []

module _ {P : Type 0} {A : Adapter P} where
  -- All points that have been put into the queue.
  abbrev pub history : State P A → List P
  history m = released m.events ++ m.queue

  -- A record of an event that takes out the points at the head of the queue.
  pub lifecycle-history :
      (e : Event P) (m : State P A) (rest : List P)
      → m.queue ≡ leaving e ++ rest
      → history (lifecycle e (record m { queue = rest })) ≡ history m
  lifecycle-history e m rest h =
      ap (λ ps. ps ++ rest) (released-append m.events (e ∷ []))
      ∙ append_assoc (released m.events) (released (e ∷ [])) rest
      ∙ ap (λ ps. released m.events ++ (ps ++ rest)) (append-nil (leaving e))
      ∙ ap (λ ps. released m.events ++ ps) (sym h)

  -- A record of an event that takes out none.
  pub quiet-history :
      (e : Event P) (m : State P A) → leaving e ≡ [] → history (lifecycle e m) ≡ history m
  quiet-history e m h = lifecycle-history e m m.queue (ap (λ ps. ps ++ m.queue) (sym h))

  pub displace-history : (m : State P A) → history (displace m) ≡ history m
  displace-history m = shifted m.queue refl
    where
      shifted : (ps : List P) → m.queue ≡ ps → history (drop_first ps m) ≡ history m
      shifted [] h = refl
      shifted (q ∷ qs) h = lifecycle-history (oldest_dropped q) m qs h

  pub put-history : (p : P) (m : State P A) → history (put p m) ≡ history m ++ p ∷ []
  put-history p m = sym (append_assoc (released m.events) m.queue (p ∷ []))

  pub record_errors-history :
      (fs : List (WriteFailure P)) (m : State P A) → history (record_errors fs m) ≡ history m
  record_errors-history [] m = refl
  record_errors-history (f ∷ fs) m = quiet-history (write_errors _) m refl

  pub record_accepted-history : (n : ℕ) (m : State P A) → history (record_accepted n m) ≡ history m
  record_accepted-history zero m = refl
  record_accepted-history (suc n) m = quiet-history (points_accepted (suc n)) m refl

  pub record_dropped-history : (n : ℕ) (m : State P A) → history (record_dropped n m) ≡ history m
  record_dropped-history zero m = refl
  record_dropped-history (suc n) m = quiet-history (points_dropped (suc n)) m refl

module _ {P : Type 0} {A : Adapter P} (c : TelemetrySettings) where
  pub enqueue_full-history :
      (s : Strategy) (p : P) (m : State P A)
      → history (enqueue_full c s p m).1 ≡ history m ++ put_points (enqueue_full c s p m).0 p
  enqueue_full-history block p m = sym (append-nil (history m))
  enqueue_full-history fail p m = sym (append-nil (history m))
  enqueue_full-history drop_newest p m = sym (append-nil (history m))
  enqueue_full-history drop_oldest p m =
      put-history p (displace m) ∙ ap (λ ps. ps ++ p ∷ []) (displace-history m)

  pub enqueue-history :
      (p : P) (m : State P A)
      → history (enqueue c p m).1 ≡ history m ++ put_points (enqueue c p m).0 p
  unfolding enqueue
  enqueue-history p m = elim (Bool-cases (full c m)) [
    | inl no_room ↦ rw no_room (enqueue_full-history c.queue_full_strategy p m)
    | inr room ↦ rw room (put-history p m)
  ]

  pub flush_batch-history :
      (batch rest : List P) (m : State P A)
      → m.queue ≡ batch ++ rest
      → history (flush_batch c batch (record m { queue = rest })).1 ≡ history m
  flush_batch-history [] rest m h = ap (λ ps. released m.events ++ ps) (sym h)
  flush_batch-history (p ∷ ps) rest m h =
      let (r, world) = write_with_retries A c.max_retries (p ∷ ps) m.world in
      let spanned = lifecycle (flush_span (p ∷ ps)) (record m { queue = rest }) in
      let counted = lifecycle (write_batches 1) spanned in
      let written : State P A = record counted { world = world } in
      let flushed = lifecycle (points_flushed r.written) written in
      let errors = record_errors r.failures flushed in
      quiet-history (queue_depth (length errors.queue)) errors refl
      ∙ record_errors-history r.failures flushed
      ∙ quiet-history (points_flushed r.written) written refl
      ∙ quiet-history (write_batches 1) spanned refl
      ∙ lifecycle-history (flush_span (p ∷ ps)) m rest h

  pub flush-history : (m : State P A) → history (flush c m).1 ≡ history m
  unfolding flush
  flush-history m =
      flush_batch-history (drain_batch c.batch_size m.queue).0 (drain_batch c.batch_size m.queue).1
        m (sym (drain_batch-append c.batch_size m.queue))

  pub flush_ready-history :
      (fuel written : ℕ) (failures : List (WriteFailure P)) (m : State P A)
      → history (flush_ready c fuel written failures m).1 ≡ history m
  unfolding flush_ready
  flush_ready-history zero written failures m = refl
  flush_ready-history (suc fuel) written failures m =
      elim (Bool-cases (leb c.batch_size (length m.queue))) [
        | inl ready ↦
            rw (ready, flush_ready) (flush_ready-history fuel _ _ (flush c m).1 ∙ flush-history m)
        | inr few ↦ rw (few, flush_ready) refl
      ]

  pub flush_all-history : (fuel : ℕ) (m : State P A) → history (flush_all c fuel m) ≡ history m
  unfolding flush_all
  flush_all-history zero m = refl
  flush_all-history (suc fuel) m = elim (Bool-cases (is_empty m.queue)) [
    | inl empty ↦ rw (empty, flush_all) refl
    | inr filled ↦ rw (filled, flush_all) (flush_all-history fuel (flush c m).1 ∙ flush-history m)
  ]

  pub close-history : (m : State P A) → history (close c m) ≡ history m
  unfolding close
  close-history m = flush_all-history (length m.queue) (record m { closed = true })
