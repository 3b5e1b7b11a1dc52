-- ===== src/Telemetry/Fifo.antt =====
-- The points leave the queue in the order in which they came, each one once.
use route_mq.Prelude.{
  ℕ, ◌+◌, ◌≡◌, refl, sym, ap, ◌∙◌, inl, inr, Bool, true, false, List, [], ◌∷◌, ◌++◌, append-nil,
  append_assoc, arith, leb, length, if◌then◌else◌, Bool-cases,
}
use route_mq.Telemetry.{TelemetrySettings, queue_depth, Adapter, State}
use route_mq.Telemetry.Manager.{
  Outcome, accepted, dropped, queue_full, waits, Progress, through, refused, waiting, Reply,
  returns, raises_closed, blocked, enqueue, record_depth, enqueue_all, record_accepted,
  record_dropped, after_records, finish_writes, write_from, write_many,
}
use route_mq.Telemetry.History.{
  history, put_points, enqueue-history, quiet-history, record_accepted-history,
  record_dropped-history, flush_ready-history,
}

module _ {P : Type 0} where
  -- Some of the elements of a list, in their order.
  pub data Part : List P → List P → Type 0 where
    stop : Part [] []
    keep : (p : P) (ps qs : List P) → Part ps qs → Part (p ∷ ps) (p ∷ qs)
    skip : (p : P) (ps qs : List P) → Part ps qs → Part ps (p ∷ qs)

  nothing-Part : (ps : List P) → Part [] ps
  nothing-Part [] = stop
  nothing-Part (p ∷ ps) = skip p [] ps (nothing-Part ps)

  -- What a loop that has taken these points says of them.
  abbrev Tells : ℕ → List P → Progress P → Type 0
  Tells a taken (through a' d) = a' ≡ a + length taken
  Tells a taken refused = Unit
  Tells a taken (waiting rest a' d) = a' ≡ a + length taken

  Tells-suc :
      (a : ℕ) (p : P) (taken : List P) (progress : Progress P)
      → Tells (a + 1) taken progress
      → Tells a (p ∷ taken) progress
  Tells-suc a p taken (through a' d) h = omega (arith, h)
  Tells-suc a p taken refused h = tt
  Tells-suc a p taken (waiting rest a' d) h = omega (arith, h)

  pub Part-append :
      (ps qs ps' qs' : List P) → Part ps qs → Part ps' qs' → Part (ps ++ ps') (qs ++ qs')
  Part-append _ _ ps' qs' stop k = k
  Part-append _ _ ps' qs' (keep p ps qs h) k =
      keep p (ps ++ ps') (qs ++ qs') (Part-append ps qs ps' qs' h k)
  Part-append _ _ ps' qs' (skip p ps qs h) k =
      skip p (ps ++ ps') (qs ++ qs') (Part-append ps qs ps' qs' h k)

  -- What the reply of a write says of the points that it has taken.
  abbrev pub Reports : ℕ → List P → Reply P → Type 0
  Reports a taken (returns r) = r.accepted ≡ a + length taken
  Reports a taken (blocked rest a' d) = a' ≡ a + length taken
  Reports a taken _ = Unit

module _ {P : Type 0} {A : Adapter P} (c : TelemetrySettings) where
  abbrev Goes : ℕ → List P → State P A → Progress P × State P A → Type 0
  Goes a ps m (progress, m') =
      (taken : List P) × Part taken ps × (history m' ≡ history m ++ taken) × Tells a taken progress

  enqueue_all-nil : (a d : ℕ) (m : State P A) → enqueue_all c [] a d m ≡ (through a d, m)
  unfolding enqueue_all
  enqueue_all-nil a d m = refl

  enqueue_all-accepted :
      (p : P) (ps : List P) (a d : ℕ) (m : State P A)
      → (enqueue c p m).0 ≡ accepted
      → enqueue_all c (p ∷ ps) a d m ≡ enqueue_all c ps (a + 1) d (enqueue c p m).1
  unfolding enqueue_all
  enqueue_all-accepted p ps a d m h = rw (h, enqueue_all) refl

  enqueue_all-dropped :
      (p : P) (ps : List P) (a d : ℕ) (m : State P A)
      → (enqueue c p m).0 ≡ dropped
      → enqueue_all c (p ∷ ps) a d m ≡ enqueue_all c ps a (d + 1) (enqueue c p m).1
  unfolding enqueue_all
  enqueue_all-dropped p ps a d m h = rw (h, enqueue_all) refl

  enqueue_all-queue_full :
      (p : P) (ps : List P) (a d : ℕ) (m : State P A)
      → (enqueue c p m).0 ≡ queue_full
      → enqueue_all c (p ∷ ps) a d m ≡ (refused, (enqueue c p m).1)
  unfolding enqueue_all
  enqueue_all-queue_full p ps a d m h = rw (h, enqueue_all) refl

  enqueue_all-waits :
      (p : P) (ps : List P) (a d : ℕ) (m : State P A)
      → (enqueue c p m).0 ≡ waits
      → enqueue_all c (p ∷ ps) a d m ≡ (waiting (p ∷ ps) a d, (enqueue c p m).1)
  unfolding enqueue_all
  enqueue_all-waits p ps a d m h = rw (h, enqueue_all) refl

  -- An outcome that takes no point leaves the history alone.
  same-history :
      (p : P) (m : State P A)
      → put_points (enqueue c p m).0 p ≡ []
      → history (enqueue c p m).1 ≡ history m
  same-history p m h = enqueue-history c p m ∙ ap (λ ps. history m ++ ps) h ∙ append-nil (history m)

  enqueue_all-Goes : (ps : List P) (a d : ℕ) (m : State P A) → Goes a ps m (enqueue_all c ps a d m)
  enqueue_all-Goes [] a d m =
      rw (enqueue_all-nil a d m) ([], stop, sym (append-nil (history m)), omega arith)
  enqueue_all-Goes (p ∷ ps) a d m =
      let m' = (enqueue c p m).1 in
      offered (enqueue c p m).0 refl (enqueue_all-Goes ps (a + 1) d m')
        (enqueue_all-Goes ps a (d + 1) m')
    where
      offered :
          (o : Outcome)
          → (enqueue c p m).0 ≡ o
          → Goes (a + 1) ps (enqueue c p m).1 (enqueue_all c ps (a + 1) d (enqueue c p m).1)
          → Goes a ps (enqueue c p m).1 (enqueue_all c ps a (d + 1) (enqueue c p m).1)
          → Goes a (p ∷ ps) m (enqueue_all c (p ∷ ps) a d m)
      offered accepted e after_put after_drop =
          let (taken, part, same, told) = after_put in
          let added = enqueue-history c p m ∙ ap (λ o. history m ++ put_points o p) e in
          rw (enqueue_all-accepted p ps a d m e) (
            p ∷ taken,
            keep p taken ps part,
            same ∙ ap (λ xs. xs ++ taken) added ∙ append_assoc (history m) (p ∷ []) taken,
            Tells-suc a p taken (enqueue_all c ps (a + 1) d (enqueue c p m).1).0 told,
          )
      offered dropped e after_put after_drop =
          let (taken, part, same, told) = after_drop in
          let kept = same-history p m (ap (λ o. put_points o p) e) in
          rw (enqueue_all-dropped p ps a d m e)
            (taken, skip p taken ps part, same ∙ ap (λ xs. xs ++ taken) kept, told)
      offered queue_full e after_put after_drop =
          let kept = same-history p m (ap (λ o. put_points o p) e) in
          rw (enqueue_all-queue_full p ps a d m e)
            ([], nothing-Part (p ∷ ps), kept ∙ sym (append-nil (history m)), tt)
      offered waits e after_put after_drop =
          let kept = same-history p m (ap (λ o. put_points o p) e) in
          rw (enqueue_all-waits p ps a d m e)
            ([], nothing-Part (p ∷ ps), kept ∙ sym (append-nil (history m)), omega arith)

  after_records-history : (a : ℕ) (m : State P A) → history (after_records c a m).1 ≡ history m
  after_records-history a m = elim (Bool-cases (leb c.batch_size (length m.queue))) [
    | inl ready ↦ rw ready (flush_ready-history c (length m.queue) 0 [] m)
    | inr few ↦ rw few refl
  ]

  -- What a write does to the manager, and what it replies.
  abbrev pub Queues : ℕ → List P → State P A → Reply P × State P A → Type 0
  Queues a ps m (reply, m') =
      (taken : List P) × Part taken ps × (history m' ≡ history m ++ taken) × Reports a taken reply

  finish_writes-Queues :
      (a : ℕ) (ps : List P) (m : State P A) (progress : Progress P) (m' : State P A)
      → Goes a ps m (progress, m')
      → Queues a ps m (finish_writes c (progress, m'))
  finish_writes-Queues a ps m refused m' (taken, part, same, told) = (taken, part, same, tt)
  finish_writes-Queues a ps m (waiting rest a' d) m' (taken, part, same, told) =
      (taken, part, same, told)
  finish_writes-Queues a ps m (through a' d) m' (taken, part, same, told) =
      let counted = record_accepted a' m' in
      let missed = record_dropped d counted in
      (
        taken,
        part,
        after_records-history a' (record_depth missed)
            ∙ quiet-history (queue_depth (length missed.queue)) missed refl
            ∙ record_dropped-history d counted
            ∙ record_accepted-history a' m'
            ∙ same,
        told,
      )

  pub write_from-Queues :
      (ps : List P) (a d : ℕ) (m : State P A) → Queues a ps m (write_from c ps a d m)
  unfolding write_from
  write_from-Queues ps a d m =
      finish_writes-Queues a ps m (enqueue_all c ps a d m).0 (enqueue_all c ps a d m).1
        (enqueue_all-Goes ps a d m)

  if-Queues :
      (b : Bool) (ps : List P) (m : State P A) (x y : Reply P × State P A)
      → Queues 0 ps m x
      → Queues 0 ps m y
      → Queues 0 ps m (if b then x else y)
  if-Queues true ps m x y h k = h
  if-Queues false ps m x y h k = k

  pub write_many-Queues : (ps : List P) (m : State P A) → Queues 0 ps m (write_many c ps m)
  unfolding write_many
  write_many-Queues ps m =
      if-Queues m.closed ps m (raises_closed, m) (write_from c ps 0 0 m)
        ([], nothing-Part ps, sym (append-nil (history m)), tt) (write_from-Queues ps 0 0 m)

  -- Whatever becomes of a write, it puts some of its points behind all that were put before, in
  -- their order, and takes out only what was put first; a reply counts just the points that it took.
  pub write_many-queues :
      (ps : List P) (m : State P A)
      → (taken : List P) × Part taken ps
        × (history (write_many c ps m).1 ≡ history m ++ taken)
        × Reports 0 taken (write_many c ps m).0
  write_many-queues ps m = write_many-Queues ps m
