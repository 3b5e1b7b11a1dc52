-- ===== src/DatabaseQueue/History/Exclusive.antt =====
-- A claimed job is claimed by nobody else, until it is released or its reservation has expired.
use route_mq.Prelude.{
  ℕ, ◌+◌, ◌<◌, ◌≡◌, ◌≢◌, refl, subst, Bool, not, ◌&&◌, Option, none, some, List, [], ◌∷◌, arith,
  All, All-append_right, All-map, first-cases, Bool-cases, inl, inr,
}
use route_mq.Text.{String}
use route_mq.Sql.{Keyed, rewrite}
use route_mq.Sql.Middle.{at}
use route_mq.DatabaseQueue.{
  Job, Popped, Backend, disabled, no_session, failing, failing_refresh, working, Storage, returns,
  is_ready,
}
use route_mq.DatabaseQueue.Operations.{Db, job_rows, pop, claim, next_job, reserve}
use route_mq.DatabaseQueue.History.{Call, run}
use route_mq.DatabaseQueue.History.Held.{HeldRow, IsHeld, Spares, next_job-ne}
use route_mq.DatabaseQueue.History.Spared.{run-IsHeld}
use route_mq.Sql.Order.{Below, IsOrdered}

module _ (S : Storage) where
  reserve-HeldRow :
      (id later : ℕ) (r : Keyed Job)
      → HeldRow S id later (
          rewrite (at id) (λ v. record v { reserved_at = some later; attempts = v.attempts + 1 }) r)
  reserve-HeldRow id later r = elim (Bool-cases (at id r)) [
    | inl e ↦ rw e (λ same. omega arith)
    | inr e ↦ rw e (λ same. absurd (ground arith))
  ]

  All-tautology :
      (P : Keyed Job → Type 0) → ((r : Keyed Job) → P r) → (rs : List (Keyed Job)) → All P rs
  All-tautology P f [] = tt
  All-tautology P f (r ∷ rs) = (f r, All-tautology P f rs)

  reserve-IsHeld :
      (id later : ℕ) (db : Db S)
      → id < S.jobs.next_id db.jobs
      → IsHeld S id later (reserve S id later db)
  reserve-IsHeld id later db known = record {
    known = omega (
      arith,
      S.jobs.next_id-update (at id)
          (λ v. record v { reserved_at = some later; attempts = v.attempts + 1 }) db.jobs,
    );
    held = rw S.jobs.rows-update (All-map _ _ _ (All-tautology _ (reserve-HeldRow id later) _));
  }

  -- The job that `pop` finds has a key in use.
  next_job-known :
      (locked : ℕ → Bool) (queue : String) (now : ℕ) (db : Db S) (j : Keyed Job)
      → IsOrdered S.jobs db.jobs
      → next_job S locked queue now db ≡ some j
      → j.id < S.jobs.next_id db.jobs
  next_job-known locked queue now db j o e =
      elim (first-cases (λ r. is_ready queue now r && not (locked r.id)) (job_rows S db)) [
        | inl (k, _) ↦ cc
        | inr (before, x, after, k, l, _, m) ↦
            let same : x ≡ j = cc in
            subst (λ (y : Keyed Job). y.id < S.jobs.next_id db.jobs) same
              (All-append_right _ before (x ∷ after)
                (subst (Below (S.jobs.next_id db.jobs)) l o.below)).0
      ]

  -- The key that a claim returns is the key of the job found.
  claim-id :
      (b : Backend) (later : ℕ) (db : Db S) (found : Option (Keyed Job)) (q : Popped)
      → (claim S b later db found).0 ≡ returns (some q)
      → (j : Keyed Job) × (found ≡ some j)
        × (j.id ≡ q.id)
        × ((claim S b later db found).1 ≡ reserve S j.id later db)
  unfolding claim
  claim-id failing_refresh later db none q e = cc
  claim-id failing_refresh later db (some j) q e = cc
  claim-id _ later db none q e = cc
  claim-id _ later db (some j) q e = (j, refl, ground arith, refl)

  pop-ne :
      (id t : ℕ) (b : Backend) (locked : ℕ → Bool) (queue : String) (now later : ℕ) (db : Db S)
      (q : Popped)
      → IsHeld S id t db
      → (pop S b locked queue now later db).0 ≡ returns (some q)
      → q.id ≢ id
  unfolding pop
  pop-ne id t disabled locked queue now later db q h e = cc
  pop-ne id t no_session locked queue now later db q h e = cc
  pop-ne id t failing locked queue now later db q h e = cc
  pop-ne id t b locked queue now later db q h e =
      let (j, found, same, _) = claim-id b later db (next_job S locked queue now db) q e in
      subst (λ (n : ℕ). n ≢ id) same (next_job-ne S id t locked queue now db j h found)

  -- When `pop` has returned a job, reserved at time `later`, no `pop` returns this job again after
  -- any further calls, by any workers, under any failures of the backend, as long as these calls
  -- hold no release of this job, no heartbeat of it by a clock before `later`, and no reaper that
  -- runs when more than the visibility timeout has passed since `later`.
  pub pop-exclusive :
      (locked : ℕ → Bool) (queue : String) (now later : ℕ) (db : Db S) (p : Popped)
      → IsOrdered S.jobs db.jobs
      → (pop S working locked queue now later db).0 ≡ returns (some p)
      → (cs : List Call) → All (Spares p.id later) cs
      → (b : Backend) (locked' : ℕ → Bool) (queue' : String) (now' later' : ℕ) (q : Popped)
      → (pop S b locked' queue' now' later'
          (run S cs (pop S working locked queue now later db).1)).0
        ≡ returns (some q)
      → q.id ≢ p.id
  unfolding pop
  pop-exclusive locked queue now later db p o e cs spare b locked' queue' now' later' q again =
      let (j, found, same, after) =
        claim-id working later db (next_job S locked queue now db) p e in
      let known = next_job-known locked queue now db j o found in
      let held : IsHeld S p.id later (pop S working locked queue now later db).1 =
        rw (after, same)
          (reserve-IsHeld p.id later db
            (subst (λ (n : ℕ). n < S.jobs.next_id db.jobs) same known)) in
      pop-ne p.id later b locked' queue' now' later' _ q (run-IsHeld S p.id later cs _ spare held)
        again
