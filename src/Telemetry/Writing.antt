-- ===== src/Telemetry/Writing.antt =====
-- `TelemetryManager._write_with_retries`.
use route_mq.Prelude.{
  ℕ, zero, suc, ◌+◌, Bool, true, false, ◌&&◌, List, [], ◌∷◌, ◌++◌, map, length, if◌then◌else◌,
}
use route_mq.Text.{String}
use route_mq.Telemetry.{
  WriteFailure, WriteResult, wrote, raised, enumerate, points_of, map_failure_to_original, Adapter,
}

module _ {P : Type 0} (A : Adapter P) where
  open A use {World, write_many}

  -- The failures of all pending points, after an exception.
  abbrev pub give_up : String → List (ℕ × P) → List (WriteFailure P)
  give_up error = map λ (i, p). record { index = i; point = p; error = error; retriable = true }

  abbrev pub mapped_failure : List (ℕ × P) → WriteFailure P → WriteFailure P
  mapped_failure pending f = record f { index = (map_failure_to_original P pending f).0 }

  -- The points to write again; on the last attempt, there are none.
  abbrev pub next_pending : Bool → List (ℕ × P) → List (WriteFailure P) → List (ℕ × P)
  next_pending more pending [] = []
  next_pending more pending (f ∷ fs) =
      if f.retriable && more
      then ((mapped_failure pending f).index, f.point) ∷ next_pending more pending fs
      else next_pending more pending fs

  abbrev pub final_failures : Bool → List (ℕ × P) → List (WriteFailure P) → List (WriteFailure P)
  final_failures more pending [] = []
  final_failures more pending (f ∷ fs) =
      if f.retriable && more
      then final_failures more pending fs
      else mapped_failure pending f ∷ final_failures more pending fs

  abbrev pub result : ℕ → ℕ → List (WriteFailure P) → WriteResult P
  result total written failures = record {
    accepted = total;
    written = written;
    failures = failures;
  }

  -- `left` counts the attempts after this one, and `total` the points of the batch.
  unfoldable pub write_pending :
      (left total : ℕ) → List (ℕ × P) → List (WriteFailure P) → ℕ → World → WriteResult P × World
  write_pending zero total pending failures written w =
      let (answer, w') = write_many (points_of P pending) w in
      elim answer [
        | raised error ↦ (result total written (failures ++ give_up error pending), w')
        | wrote r ↦ (
          result total (written + r.written) (failures ++ final_failures false pending r.failures),
          w',
        )
      ]
  write_pending (suc left) total pending failures written w =
      let (answer, w') = write_many (points_of P pending) w in
      elim answer [
        | raised error ↦ write_pending left total pending failures written w'
        | wrote r ↦
            let failures' = failures ++ final_failures true pending r.failures in
            elim (next_pending true pending r.failures) [
              | [] ↦ (result total (written + r.written) failures', w')
              | q ∷ qs ↦ write_pending left total (q ∷ qs) failures' (written + r.written) w'
            ]
      ]

  -- `_write_with_retries`, with `max_retries`.
  abbrev pub write_with_retries : ℕ → List P → World → WriteResult P × World
  write_with_retries max_retries points w =
      write_pending max_retries (length points) (enumerate P 0 points) [] 0 w
