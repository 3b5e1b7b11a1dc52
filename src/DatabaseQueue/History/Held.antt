-- ===== src/DatabaseQueue/History/Held.antt =====
-- A reservation of a job under the operations on jobs.
use route_mq.Prelude.{
  ℕ, ◌+◌, ◌≤◌, ◌<◌, ◌≡◌, ◌≢◌, refl, subst, Bool, true, not, ◌&&◌, Option, none, some, ◌∷◌, arith,
  All, All-append, All-append_right, All-select, All-map, All-imp, first-cases, Bool-cases, inl,
  inr,
}
use route_mq.Text.{String}
use route_mq.Sql.{Keyed, rewrite}
use route_mq.Sql.Middle.{at}
use route_mq.DatabaseQueue.{
  Job, Backend, disabled, no_session, failing, failing_refresh, Storage, seconds, is_expired,
  is_ready, at_job, is_none, reserved_before,
}
use route_mq.DatabaseQueue.Operations.{
  Db, job_rows, push, pop, claim, next_job, reserve, release, delete, heartbeat, is_reserved,
}
use route_mq.DatabaseQueue.Reaper.{Reaping}
use route_mq.DatabaseQueue.History.{Call, releases, heartbeats, reaps}

-- Reserved, at a time or later.
abbrev pub Since : ℕ → Option ℕ → Type 0
Since t none = ⊥
Since t (some u) = t ≤ u

-- The calls that leave a reservation of job `id` from time `t` standing: no release of this job, no
-- heartbeat of it by a clock that is behind, and no reaper before the visibility timeout is over.
abbrev pub Spares : ℕ → ℕ → Call → Type 0
Spares id t (releases b i queue delay now) = i ≢ id
Spares id t (heartbeats b i queue now) = i ≡ id → t ≤ now
Spares id t (reaps b r) = r.now ≤ t + seconds r.visibility
Spares id t _ = Unit

Since-none : (t : ℕ) (o : Option ℕ) → Since t o → is_none o ≡ true → ⊥
Since-none t none h e = h
Since-none t (some u) h e = cc

Since-expired :
    (t : ℕ) (o : Option ℕ) (timeout now : ℕ)
    → now ≤ t + timeout
    → Since t o
    → reserved_before o timeout now ≡ true
    → ⊥
Since-expired t none timeout now fresh h e = h
Since-expired t (some u) timeout now fresh h e = ground arith

module _ (S : Storage) (id t : ℕ) where
  abbrev pub HeldRow : Keyed Job → Type 0
  HeldRow r = r.id ≡ id → Since t r.columns.reserved_at

  pub record IsHeld (db : Db S) : Type 0 where
    pub known : id < S.jobs.next_id db.jobs
    pub held : All HeldRow (job_rows S db)

  pub insert-IsHeld :
      (v : Job) (db : Db S) → IsHeld db → IsHeld (record db { jobs = S.jobs.insert v db.jobs })
  insert-IsHeld v db h = record {
    known = omega (arith, h.known, S.jobs.next_id-insert v db.jobs);
    held =
        rw S.jobs.rows-insert (All-append _ _ _ h.held (λ e. absurd (omega (arith, h.known)), tt));
  }

  pub update-IsHeld :
      (p : Keyed Job → Bool) (f : Job → Job) (db : Db S)
      → ((r : Keyed Job) → HeldRow r → HeldRow (rewrite p f r))
      → IsHeld db
      → IsHeld (record db { jobs = S.jobs.update p f db.jobs })
  update-IsHeld p f db keep h = record {
    known = omega (arith, h.known, S.jobs.next_id-update p f db.jobs);
    held = rw S.jobs.rows-update (All-map _ _ _ (All-imp keep _ h.held));
  }

  pub delete-IsHeld :
      (p : Keyed Job → Bool) (db : Db S)
      → IsHeld db
      → IsHeld (record db { jobs = S.jobs.delete p db.jobs })
  delete-IsHeld p db h = record {
    known = omega (arith, h.known, S.jobs.next_id-delete p db.jobs);
    held = rw S.jobs.rows-delete (All-select _ _ _ h.held);
  }

  pub with_failed :
      (db : Db S) (s : S.failed_jobs.State) → IsHeld db → IsHeld (record db { failed_jobs = s })
  with_failed db s h = record { known = h.known; held = h.held }

  -- An update of other rows.
  pub rewritten :
      (p : Keyed Job → Bool) (f : Job → Job) (r : Keyed Job)
      → (p r ≡ true → r.id ≢ id)
      → HeldRow r
      → HeldRow (rewrite p f r)
  rewritten p f r other h = elim (Bool-cases (p r)) [
    | inl e ↦ rw e (λ same. absurd (other e same))
    | inr e ↦ rw e h
  ]

  -- A claimable row is not the held one.
  ready-ne :
      (queue : String) (now : ℕ) (taken : Bool) (r : Keyed Job)
      → HeldRow r
      → (is_ready queue now r && taken) ≡ true
      → r.id ≢ id
  ready-ne queue now taken r h e same = Since-none t r.columns.reserved_at (h same) (ground arith)

  pub expired-ne :
      (g : Reaping) (r : Keyed Job)
      → g.now ≤ t + seconds g.visibility
      → HeldRow r
      → is_expired g.queue g.visibility g.now r ≡ true
      → r.id ≢ id
  expired-ne g r fresh h e same =
      Since-expired t r.columns.reserved_at (seconds g.visibility) g.now fresh (h same)
        (ground arith)

  pub at-ne : (i : ℕ) (r : Keyed Job) → i ≢ id → at i r ≡ true → r.id ≢ id
  at-ne i r ne e same = ne (ground arith)

  at_job-ne :
      (i : ℕ) (queue : String) (r : Keyed Job) → i ≢ id → at_job i queue r ≡ true → r.id ≢ id
  at_job-ne i queue r ne e same = ne (ground arith)

  is_reserved-late :
      (now' i : ℕ) (queue : String) (r : Keyed Job)
      → (i ≡ id → t ≤ now')
      → is_reserved i queue r ≡ true
      → r.id ≡ id
      → t ≤ now'
  is_reserved-late now' i queue r late e same = late (ground arith)

  pub push-IsHeld :
      (b : Backend) (payload queue : String) (delay now created : ℕ) (db : Db S)
      → IsHeld db
      → IsHeld (push S b payload queue delay now created db).1
  unfolding push
  push-IsHeld disabled payload queue delay now created db h = h
  push-IsHeld no_session payload queue delay now created db h = h
  push-IsHeld failing payload queue delay now created db h = h
  push-IsHeld _ payload queue delay now created db h = insert-IsHeld _ db h

  pub reserve-IsHeld :
      (i later : ℕ) (db : Db S) → i ≢ id → IsHeld db → IsHeld (reserve S i later db)
  reserve-IsHeld i later db ne h =
      let f = λ (v : Job). record v { reserved_at = some later; attempts = v.attempts + 1 } in
      update-IsHeld (at i) f db (λ r. rewritten (at i) f r (at-ne i r ne)) h

  pub next_job-ne :
      (locked : ℕ → Bool) (queue : String) (now : ℕ) (db : Db S) (j : Keyed Job)
      → IsHeld db
      → next_job S locked queue now db ≡ some j
      → j.id ≢ id
  next_job-ne locked queue now db j h e =
      elim (first-cases (λ r. is_ready queue now r && not (locked r.id)) (job_rows S db)) [
        | inl (k, _) ↦ cc
        | inr (before, x, after, k, l, _, m) ↦
            let same : x ≡ j = cc in
            subst (λ (y : Keyed Job). y.id ≢ id) same
              (ready-ne queue now (not (locked x.id)) x
                (All-append_right HeldRow before (x ∷ after) (subst (All HeldRow) l h.held)).0 m)
      ]

  pub claim-IsHeld :
      (b : Backend) (later : ℕ) (db : Db S) (found : Option (Keyed Job))
      → ((j : Keyed Job) → found ≡ some j → j.id ≢ id)
      → IsHeld db
      → IsHeld (claim S b later db found).1
  unfolding claim
  claim-IsHeld b later db none ne h = h
  claim-IsHeld failing_refresh later db (some j) ne h = reserve-IsHeld j.id later db (ne j refl) h
  claim-IsHeld _ later db (some j) ne h = reserve-IsHeld j.id later db (ne j refl) h

  pub pop-IsHeld :
      (b : Backend) (locked : ℕ → Bool) (queue : String) (now later : ℕ) (db : Db S)
      → IsHeld db
      → IsHeld (pop S b locked queue now later db).1
  unfolding pop
  pop-IsHeld disabled locked queue now later db h = h
  pop-IsHeld no_session locked queue now later db h = h
  pop-IsHeld failing locked queue now later db h = h
  pop-IsHeld b locked queue now later db h =
      claim-IsHeld b later db (next_job S locked queue now db)
        (λ j e. next_job-ne locked queue now db j h e) h

  pub release-IsHeld :
      (b : Backend) (i : ℕ) (queue : String) (delay now : ℕ) (db : Db S)
      → i ≢ id
      → IsHeld db
      → IsHeld (release S b i queue delay now db).1
  unfolding release
  release-IsHeld disabled i queue delay now db ne h = h
  release-IsHeld no_session i queue delay now db ne h = h
  release-IsHeld failing i queue delay now db ne h = h
  release-IsHeld _ i queue delay now db ne h =
      let f = λ (v : Job). record v { reserved_at = none; available_at = now + seconds delay } in
      update-IsHeld (at_job i queue) f db
        (λ r. rewritten (at_job i queue) f r (at_job-ne i queue r ne)) h

  pub delete-job-IsHeld :
      (b : Backend) (i : ℕ) (queue : String) (db : Db S)
      → IsHeld db
      → IsHeld (delete S b i queue db).1
  unfolding delete
  delete-job-IsHeld disabled i queue db h = h
  delete-job-IsHeld no_session i queue db h = h
  delete-job-IsHeld failing i queue db h = h
  delete-job-IsHeld _ i queue db h = delete-IsHeld _ db h

  beat :
      (p : Keyed Job → Bool) (now : ℕ) (r : Keyed Job)
      → (p r ≡ true → r.id ≡ id → t ≤ now)
      → HeldRow r
      → HeldRow (rewrite p (λ v. record v { reserved_at = some now }) r)
  beat p now r late h = elim (Bool-cases (p r)) [ inl e ↦ rw e (late e) | inr e ↦ rw e h ]

  pub heartbeat-IsHeld :
      (b : Backend) (i : ℕ) (queue : String) (now : ℕ) (db : Db S)
      → (i ≡ id → t ≤ now)
      → IsHeld db
      → IsHeld (heartbeat S b i queue now db).1
  unfolding heartbeat
  heartbeat-IsHeld disabled i queue now db late h = h
  heartbeat-IsHeld no_session i queue now db late h = h
  heartbeat-IsHeld failing i queue now db late h = h
  heartbeat-IsHeld _ i queue now db late h =
      update-IsHeld (is_reserved i queue) (λ v. record v { reserved_at = some now }) db
        (λ r. beat (is_reserved i queue) now r (is_reserved-late now i queue r late)) h
