-- ===== src/DatabaseQueue/Reaper/Outcome.antt =====
-- What a run of the reaper leaves in the two tables.
use route_mq.Prelude.{
  ℕ, ◌≡◌, ◌≢◌, inl, inr, refl, sym, subst, ◌∙◌, Bool, true, false, ◌&&◌, Option, none, some, List,
  [], ◌∷◌, ◌++◌, map, append_assoc, append-nil, map-append, select-append, select, All,
  if◌then◌else◌, leb, length, Bool-cases, Option-cases,
}
use route_mq.Sql.{Keyed}
use route_mq.Sql.Order.{Ascending, IsOrdered, update-IsOrdered, delete-IsOrdered}
use route_mq.Sql.Middle.{rewrite-middle, select-middle}
use route_mq.DatabaseQueue.{
  Job, FailedJob, Storage, returns, raises, working, not_object, is_expired, payload_max_tries,
}
use route_mq.DatabaseQueue.Operations.{Db, job_rows, failed_rows}
use route_mq.DatabaseQueue.Reaper.{
  Reaping, reap_job, reap_jobs, reap_expired, expired_job, give_up, give_back,
}

abbrev pub expired : Reaping → Keyed Job → Bool
expired r = is_expired r.queue r.visibility r.now

abbrev pub given_back : Reaping → Keyed Job → Keyed Job
given_back r j = record j {
  columns = record j.columns { reserved_at = none; available_at = r.now };
}

abbrev pub columns_of : List (Keyed FailedJob) → List FailedJob
columns_of = map λ f. f.columns

abbrev pub tries : Storage → Keyed Job → Option ℕ
tries S j = payload_max_tries (S.decode j.columns.payload)

module _ (S : Storage) (r : Reaping) where
  abbrev exhausts : ℕ → Option ℕ → Bool
  exhausts attempts none = false
  exhausts attempts (some t) = leb t attempts

  -- A job that has used its tries.
  abbrev pub exhausted : Keyed Job → Bool
  exhausted j = exhausts j.columns.attempts (tries S j)

  -- The rows that the reaper leaves.
  abbrev pub survivors : List (Keyed Job) → List (Keyed Job)
  survivors [] = []
  survivors (j ∷ js) =
      if expired r j
      then (if exhausted j then survivors js else given_back r j ∷ survivors js)
      else j ∷ survivors js

  abbrev pub failures : List (Keyed Job) → List FailedJob
  failures js = map (λ j. expired_job S r j.columns) (select (λ j. expired r j && exhausted j) js)

  abbrev IsReaped : Db S → List (Keyed Job) → List (Keyed Job) → Option (Db S) → Type 0
  IsReaped db done todo o =
      (db' : Db S) × (o ≡ some db')
      × (job_rows S db' ≡ done ++ survivors todo)
      × (columns_of (failed_rows S db') ≡ columns_of (failed_rows S db) ++ failures todo)

  failed_rows-give_up :
      (j : Keyed Job) (db : Db S)
      → columns_of (failed_rows S (give_up S r j db))
        ≡ columns_of (failed_rows S db) ++ expired_job S r j.columns ∷ []
  failed_rows-give_up j db = rw (S.failed_jobs.rows-insert) (map-append _ _ _)

  reap_jobs-IsReaped :
      (db : Db S) (done todo : List (Keyed Job))
      → IsOrdered S.jobs db.jobs
      → job_rows S db ≡ done ++ todo
      → All (λ j. expired r j ≡ true → tries S j ≢ none) todo
      → IsReaped db done todo (reap_jobs S r (select (expired r) todo) db)
  unfolding reap_jobs
  reap_jobs-IsReaped db done [] o e d = (db, refl, e, sym (append-nil _))
  reap_jobs-IsReaped db done (j ∷ js) o e d = elim (Bool-cases (expired r j)) [
    | inr live ↦
        let (db', eq, rows, cols) =
          reap_jobs-IsReaped db (done ++ j ∷ []) js o (e ∙ sym (append_assoc done (j ∷ []) js))
            d.1 in
        rw live (db', eq, rows ∙ append_assoc done (j ∷ []) (survivors js), cols)
    | inl dead ↦ elim (Option-cases (tries S j)) [
      | inl absent ↦ absurd (d.0 dead absent)
      | inr (t, found) ↦ elim (Bool-cases (leb t j.columns.attempts)) [
        | inl over ↦
            let (db', eq, rows, cols) =
              reap_jobs-IsReaped (give_up S r j db) done js (delete-IsOrdered S.jobs _ db.jobs o)
                (S.jobs.rows-delete _ db.jobs
                  ∙ rw e (select-middle done j js (subst Ascending e o.ascending)))
                d.1 in
            rw dead (
              rw (found, reap_jobs)
                (rw over (
                  db',
                  eq,
                  rows,
                  cols
                      ∙ rw failed_rows-give_up
                          (append_assoc _ (expired_job S r j.columns ∷ []) (failures js)),
                )))
        | inr left ↦
            let (db', eq, rows, cols) =
              reap_jobs-IsReaped (give_back S r j db) (done ++ given_back r j ∷ []) js
                (update-IsOrdered S.jobs _ _ db.jobs o)
                (S.jobs.rows-update _ _ db.jobs
                  ∙ rw e (
                      rewrite-middle _ done j js (subst Ascending e o.ascending)
                      ∙ sym (append_assoc done (given_back r j ∷ []) js)))
                d.1 in
            rw dead (
              rw (found, reap_jobs)
                (rw left
                  (db', eq, rows ∙ append_assoc done (given_back r j ∷ []) (survivors js), cols)))
      ]
    ]
  ]

  -- On job rows in key order and a working backend, where the tries of every expired job can be read
  -- (its payload is not JSON that is no object, and its `max_tries` is not infinite), the reaper
  -- returns the number of expired jobs. Of these it moves the ones that have used their tries to the failed jobs, in key order and under
  -- the run's message, and makes the others available at once, unreserved, with their attempts kept.
  -- The other rows stay as they are, and so do the columns of the failed jobs that were there.
  pub reap_expired-IsReaped :
      (db : Db S)
      → IsOrdered S.jobs db.jobs
      → All (λ j. expired r j ≡ true → tries S j ≢ none) (job_rows S db)
      → (db' : Db S) × (reap_expired S working r db
          ≡ (returns (length (select (expired r) (job_rows S db))), db'))
        × (job_rows S db' ≡ survivors (job_rows S db))
        × (columns_of (failed_rows S db')
            ≡ columns_of (failed_rows S db) ++ failures (job_rows S db))
  unfolding reap_expired
  reap_expired-IsReaped db o d =
      let (db', eq, rows, cols) = reap_jobs-IsReaped db [] (job_rows S db) o refl d in
      (db', rw (eq, reap_expired), rows, cols)

  reap_jobs-raises :
      (before : List (Keyed Job)) (j : Keyed Job) (after : List (Keyed Job)) (db : Db S)
      → tries S j ≡ none
      → reap_jobs S r (before ++ j ∷ after) db ≡ none
  unfolding reap_jobs
  reap_jobs-raises [] j after db e = rw (e, reap_jobs)
  reap_jobs-raises (x ∷ xs) j after db e = elim (Option-cases (reap_job S r x db)) [
    | inl stop ↦ rw (stop, reap_jobs)
    | inr (db', go) ↦ rw (go, reap_jobs) (reap_jobs-raises xs j after db' e)
  ]

  -- One expired job of the queue whose payload is JSON, but no object, makes the run raise, and no
  -- job is returned or failed, whatever else has expired.
  pub reap_expired-raises :
      (before : List (Keyed Job)) (j : Keyed Job) (after : List (Keyed Job)) (db : Db S)
      → job_rows S db ≡ before ++ j ∷ after
      → expired r j ≡ true
      → S.decode j.columns.payload ≡ not_object
      → reap_expired S working r db ≡ (raises, db)
  unfolding reap_expired payload_max_tries
  reap_expired-raises before j after db e dead bad =
      let stop : reap_jobs S r (select (expired r) (job_rows S db)) db ≡ none =
        rw (e, select-append (expired r) before (j ∷ after))
          (rw dead (
            reap_jobs-raises (select (expired r) before) j (select (expired r) after) db
              (rw bad))) in
      rw (stop, reap_expired)
