-- ===== src/Telemetry/Runs.antt =====
-- Any calls of `TelemetryManager`, one after another.
use route_mq.Prelude.{ℕ, ◌≡◌, sym, ap, ◌∙◌, List, [], ◌∷◌, ◌++◌, append-nil, append_assoc}
use route_mq.Telemetry.{TelemetrySettings, Adapter, State}
use route_mq.Telemetry.Manager.{write_from, write_many, flush, close}
use route_mq.Telemetry.History.{history, flush-history, close-history}
use route_mq.Telemetry.Fifo.{Part, stop, Part-append, write_from-Queues, write_many-Queues}

-- A call; `resumes` is a blocked write that goes on.
pub data Call (P : Type 0) : Type 0 where
  writes : List P → Call P
  resumes : (rest : List P) → (taken missed : ℕ) → Call P
  flushes : Call P
  closes : Call P

module _ {P : Type 0} {A : Adapter P} where
  abbrev pub after : {B : Type 0} → B × State P A → State P A
  after (b, m) = m

module _ {P : Type 0} where
  abbrev pub offered : Call P → List P
  offered (writes ps) = ps
  offered (resumes rest a d) = rest
  offered _ = []

  abbrev pub all_offered : List (Call P) → List P
  all_offered [] = []
  all_offered (k ∷ ks) = offered k ++ all_offered ks

module _ {P : Type 0} {A : Adapter P} (c : TelemetrySettings) where
  unfoldable pub step : Call P → State P A → State P A
  step (writes ps) m = after (write_many c ps m)
  step (resumes rest a d) m = after (write_from c rest a d m)
  step flushes m = after (flush c m)
  step closes m = close c m

  unfoldable pub run : List (Call P) → State P A → State P A
  unfolding step
  run [] m = m
  run (k ∷ ks) m = run ks (step k m)

  abbrev Extends : List P → State P A → State P A → Type 0
  Extends ps m m' = (taken : List P) × Part taken ps × (history m' ≡ history m ++ taken)

  nothing-Extends : (m m' : State P A) → history m' ≡ history m → Extends [] m m'
  nothing-Extends m m' h = ([], stop, h ∙ sym (append-nil (history m)))

  step-Extends : (k : Call P) (m : State P A) → Extends (offered k) m (step k m)
  unfolding step
  step-Extends (writes ps) m =
      let (taken, part, same, told) = write_many-Queues c ps m in (taken, part, same)
  step-Extends (resumes rest a d) m =
      let (taken, part, same, told) = write_from-Queues c rest a d m in (taken, part, same)
  step-Extends flushes m = nothing-Extends m (flush c m).1 (flush-history c m)
  step-Extends closes m = nothing-Extends m (close c m) (close-history c m)

  -- Over any calls, the points that have left the queue and those that are in it are, in their
  -- order, those of before and some of the points that the calls were given, in the order of the
  -- calls: none is doubled, overtaken or lost on the way.
  pub run-queues :
      (ks : List (Call P)) (m : State P A)
      → (taken : List P) × Part taken (all_offered ks) × (history (run ks m) ≡ history m ++ taken)
  unfolding run
  run-queues [] m = ([], stop, sym (append-nil (history m)))
  run-queues (k ∷ ks) m =
      let (first_taken, part, same) = step-Extends k m in
      let (rest, part', same') = run-queues ks (step k m) in
      (
        first_taken ++ rest,
        Part-append first_taken (offered k) rest (all_offered ks) part part',
        same' ∙ ap (λ xs. xs ++ rest) same ∙ append_assoc (history m) first_taken rest,
      )
