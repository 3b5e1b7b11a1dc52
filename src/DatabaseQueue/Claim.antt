-- ===== src/DatabaseQueue/Claim.antt =====
-- What `pop` of `DatabaseQueue` claims.
use route_mq.Prelude.{
  ℕ, ◌+◌, ◌≡◌, ◌⊎◌, inl, inr, subst, Bool, true, false, none, some, List, ◌∷◌, ◌++◌, first-cases,
  All,
}
use route_mq.Text.{String}
use route_mq.Sql.{Keyed}
use route_mq.Sql.Order.{Ascending, IsOrdered}
use route_mq.Sql.Middle.{rewrite-middle}
use route_mq.DatabaseQueue.{Job, Storage, returns, working}
use route_mq.DatabaseQueue.Operations.{Db, job_rows, failed_rows, pop, popped, claimable}

-- The row of a job that was claimed at a time.
abbrev pub reserved : ℕ → Keyed Job → Keyed Job
reserved later j = record j {
  columns = record j.columns { reserved_at = some later; attempts = j.columns.attempts + 1 };
}

module _ (S : Storage) (locked : ℕ → Bool) (queue : String) (now later : ℕ) (db : Db S) where
  -- On tables in key order and a working backend, `pop` has one of two results. Either no row of
  -- the queue is available, unreserved and not locked by another session; then it returns None and
  -- changes nothing. Or it returns the first such row with its attempts counted up by one, and
  -- marks this row reserved, with that count; all rows before it were not to be claimed, and no
  -- other row and no failed job changes.
  pub pop-claims :
      IsOrdered S.jobs db.jobs
      → (All (λ r. claimable locked queue now r ≡ false) (job_rows S db)
          × (pop S working locked queue now later db ≡ (returns none, db)))
        ⊎ ((before : List (Keyed Job)) × (j : Keyed Job) × (after : List (Keyed Job)) × (job_rows S
                db
              ≡ before ++ j ∷ after)
            × All (λ r. claimable locked queue now r ≡ false) before
            × (claimable locked queue now j ≡ true)
            × ((pop S working locked queue now later db).0 ≡ returns (some (popped j)))
            × (job_rows S (pop S working locked queue now later db).1
                ≡ before ++ reserved later j ∷ after)
            × (failed_rows S (pop S working locked queue now later db).1 ≡ failed_rows S db))
  unfolding pop
  pop-claims o = elim (first-cases (claimable locked queue now) (job_rows S db)) [
    | inl (h, k) ↦ inl (k, rw h)
    | inr (before, j, after, h, k, l, m) ↦ inr (
      before,
      j,
      after,
      k,
      l,
      m,
      rw h,
      rw h (
          rw (S.jobs.rows-update, k)
            (rewrite-middle _ before j after (subst Ascending k o.ascending))),
      rw h,
    )
  ]
