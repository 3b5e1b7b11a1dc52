-- ===== src/DatabaseQueue/Failed/Retry.antt =====
-- `retry_failed_job` of `DatabaseQueue` moves a failed job in two transactions.
use route_mq.Prelude.{
  ℕ, ◌+◌, ◌∙◌, ◌≡◌, ◌≢◌, refl, ap, Bool, true, not, Option, none, some, List, [], ◌∷◌, ◌++◌, arith,
  select, first, ◌⊎◌, inl, inr,
}
use route_mq.Sql.{Keyed}
use route_mq.Sql.Middle.{at}
use route_mq.DatabaseQueue.{
  Job, FailedJob, Backend, disabled, no_session, failing, Storage, Reply, returns, seconds,
}
use route_mq.DatabaseQueue.Operations.{Db, job_rows, failed_rows, push, new_job}
use route_mq.DatabaseQueue.Failed.{
  Sessions, get_failed_job, forget_failed_job, forget_found, forget_after, retry_found,
  retry_failed_job, remove_failed,
}

module _ (S : Storage) where
  abbrev pub lookup_failed : ℕ → Db S → Option (Keyed FailedJob)
  lookup_failed id db = first (at id) (failed_rows S db)

  -- A call that moves nothing.
  abbrev Unmoved : Db S → Reply Bool × Db S → Type 0
  Unmoved db out = (out.0 ≢ returns true) × (out.1 ≡ db)

  -- A call that deletes the failed job.
  abbrev Removed : ℕ → Db S → Reply Bool × Db S → Type 0
  Removed id db out = (out.0 ≡ returns true) × (out.1 ≡ remove_failed S id db)

  first-id :
      (id : ℕ) (rs : List (Keyed FailedJob)) (r : Keyed FailedJob)
      → first (at id) rs ≡ some r
      → r.id ≡ id
  first-id id [] r e = cc
  first-id id (x ∷ xs) r e = ground (arith, first-id id xs r)

  forget_found-Removed :
      (id : ℕ) (db : Db S) (found : Option (Keyed FailedJob))
      → lookup_failed id db ≡ found
      → Unmoved db (forget_found S id db found) ⊎ Removed id db (forget_found S id db found)
  forget_found-Removed id db none e = inl (λ p. cc, refl)
  forget_found-Removed id db (some r) e =
      inr (refl, ap (λ (n : ℕ). remove_failed S n db) (first-id id (failed_rows S db) r e))

  forget-Removed :
      (b : Backend) (id : ℕ) (db : Db S)
      → Unmoved db (forget_failed_job S b id db) ⊎ Removed id db (forget_failed_job S b id db)
  unfolding forget_failed_job
  forget-Removed disabled id db = inl (λ p. cc, refl)
  forget-Removed no_session id db = inl (λ p. cc, refl)
  forget-Removed failing id db = inl (λ p. cc, refl)
  forget-Removed _ id db = forget_found-Removed id db _ refl

  -- The row that the job gets in the job table.
  abbrev pub requeued : Keyed FailedJob → ℕ → ℕ → Db S → Keyed Job
  requeued r now created db = record {
    id = S.jobs.next_id db.jobs;
    columns = record {
      queue = r.columns.queue;
      payload = r.columns.payload;
      attempts = 0;
      reserved_at = none;
      available_at = now;
      created_at = created;
    };
  }

  abbrev pub Moved : ℕ → Keyed FailedJob → ℕ → ℕ → Db S → Reply Bool × Db S → Type 0
  Moved id r now created db out =
      (job_rows S out.1 ≡ job_rows S db ++ requeued r now created db ∷ [])
      × (((out.0 ≢ returns true) × (failed_rows S out.1 ≡ failed_rows S db))
          ⊎ ((out.0 ≡ returns true)
              × (failed_rows S out.1 ≡ select (λ x. not (at id x)) (failed_rows S db))))

  abbrev inserted : Keyed FailedJob → ℕ → ℕ → Db S → Db S
  inserted r now created db = record db {
    jobs = S.jobs.insert (new_job S r.columns.payload r.columns.queue 0 now created) db.jobs;
  }

  rows-inserted :
      (r : Keyed FailedJob) (now created : ℕ) (db : Db S)
      → job_rows S (inserted r now created db) ≡ job_rows S db ++ requeued r now created db ∷ []
  rows-inserted r now created db =
      let at_once : now + seconds 0 ≡ now = omega arith in S.jobs.rows-insert _ db.jobs ∙ rw at_once

  inserted-Moved :
      (forgets : Backend) (id now created : ℕ) (r : Keyed FailedJob) (db : Db S)
      → Moved id r now created db (forget_failed_job S forgets id (inserted r now created db))
  inserted-Moved forgets id now created r db =
      elim (forget-Removed forgets id (inserted r now created db)) [
        | inl (ne, same) ↦ (
          ap (job_rows S) same ∙ rows-inserted r now created db,
          inl (ne, ap (failed_rows S) same),
        )
        | inr (eq, gone) ↦ (
          ap (job_rows S) gone ∙ rows-inserted r now created db,
          inr (eq, ap (failed_rows S) gone ∙ S.failed_jobs.rows-delete (at id) db.failed_jobs),
        )
      ]

  abbrev Outcome : ℕ → ℕ → ℕ → Db S → Option (Keyed FailedJob) → Reply Bool × Db S → Type 0
  Outcome id now created db found out =
      Unmoved db out ⊎ ((r : Keyed FailedJob) × (found ≡ some r) × Moved id r now created db out)

  retry_found-Outcome :
      (b forgets : Backend) (id now created : ℕ) (r : Keyed FailedJob) (db : Db S)
      → Outcome id now created db
          (some r)
          (forget_after S forgets id (push S b r.columns.payload r.columns.queue 0 now created db))
  unfolding push
  retry_found-Outcome disabled forgets id now created r db = inl (λ p. cc, refl)
  retry_found-Outcome no_session forgets id now created r db = inl (λ p. cc, refl)
  retry_found-Outcome failing forgets id now created r db = inl (λ p. cc, refl)
  retry_found-Outcome _ forgets id now created r db =
      inr (r, refl, inserted-Moved forgets id now created r db)

  looked_up-Outcome :
      (b forgets : Backend) (id now created : ℕ) (found : Option (Keyed FailedJob)) (db : Db S)
      → Outcome id now created db found (retry_found S b forgets id now created db (returns found))
  looked_up-Outcome b forgets id now created none db = inl (λ p. cc, refl)
  looked_up-Outcome b forgets id now created (some r) db =
      retry_found-Outcome b forgets id now created r db

  retry-Outcome :
      (b c forgets : Backend) (id now created : ℕ) (db : Db S)
      → Outcome id now created db
          (lookup_failed id db)
          (retry_found S c forgets id now created db (get_failed_job S b id db))
  unfolding get_failed_job
  retry-Outcome disabled c forgets id now created db = inl (λ p. cc, refl)
  retry-Outcome no_session c forgets id now created db = inl (λ p. cc, refl)
  retry-Outcome failing c forgets id now created db = inl (λ p. cc, refl)
  retry-Outcome _ c forgets id now created db =
      looked_up-Outcome c forgets id now created (lookup_failed id db) db

  -- Whatever fails in the three sessions of a retry, it ends in one of three ways: nothing is
  -- changed and True is not returned; a failed job of this id is there, and its payload stands at
  -- the end of the job table, as a new job of its queue that is available at once, while the failed
  -- job is kept and True is not returned; or the new job stands there, the failed jobs of this id
  -- are gone and True is returned.
  pub retry_failed_job-moves :
      (b : Sessions) (id now created : ℕ) (db : Db S)
      → let out = retry_failed_job S b id now created db in
        ((out.0 ≢ returns true) × (out.1 ≡ db))
        ⊎ ((r : Keyed FailedJob) × (lookup_failed id db ≡ some r) × Moved id r now created db out)
  unfolding retry_failed_job
  retry_failed_job-moves b id now created db =
      retry-Outcome b.looks_up b.pushes b.forgets id now created db
