-- ===== src/RedisQueue/Copies/Reaping.antt =====
-- The reaper of `RedisQueue` does not add copies of a job.
use route_mq.Prelude.{
  ℕ, ◌+◌, ◌≤◌, ◌≡◌, refl, sym, subst, ap, ◌∙◌, append_assoc, inl, inr, Bool, true, false, Option,
  none, some, List, [], ◌∷◌, ◌++◌, arith, leb, All, All-imp, All-append, Bool-cases,
}
use route_mq.DatabaseQueue.{Reply, returns, raises, FailedJob, payload_max_tries}
use route_mq.Redis.{remove_first}
use route_mq.RedisQueue.{
  Entry, Storage, Fault, answered, lost_request, lost_reply, Db, World, same_entry,
}
use route_mq.RedisQueue.Operations.{
  pure, bound, recovered, carried, reserved_jobs, push_ready, drop_reserved, read, unreserved,
}
use route_mq.RedisQueue.Failed.{failed, store_failed}
use route_mq.RedisQueue.Reaper.{
  Reaping, expired, expired_job, dispose, reap_job, reap_jobs, reap_expired,
}
use route_mq.RedisQueue.Copies.Texts.{weight, same_entry_refl, same_entry_sound}
use route_mq.RedisQueue.Copies.Moves.{copies, copies-push_ready, copies-drop_reserved}
use route_mq.RedisQueue.Copies.Calls.{Adds, if-Adds}

-- What the reaper has passed over is not what it removes.
pub remove_first-passed :
    (e : Entry) (before after : List Entry)
    → All (λ x. same_entry e x ≡ false) before
    → remove_first same_entry e (before ++ e ∷ after) ≡ before ++ after
remove_first-passed e [] after h = rw (same_entry_refl e) refl
remove_first-passed e (x ∷ xs) after h = rw h.0 (ap (◌∷◌ x) (remove_first-passed e xs after h.1))

module _ (S : Storage) (i : ℕ) (enabled : Bool) (faults : ℕ → Fault) where
  open S use {jobs as job_list, decode}

  abbrev held : World S → ℕ
  held w = copies S i w.db

  -- A command keeps what holds of the keys before it and after it.
  carried_keeps :
      {A : Type 0} (Q : Db S → Type 0) (fault : Fault) (p : A × Db S) (w : World S)
      → Q p.1
      → Q w.db
      → Q (carried S fault p w).1.db
  carried_keeps Q answered p w h k = h
  carried_keeps Q lost_request p w h k = k
  carried_keeps Q lost_reply p w h k = h

  abbrev Keeps : ℕ → List Entry → Db S → Type 0
  Keeps n es db = (copies S i db ≤ n) × (reserved_jobs S db ≡ es)

  failed-Keeps :
      (model : Bool) (f : FailedJob) (stamp n : ℕ) (es : List Entry) (w : World S)
      → Keeps n es w.db
      → Keeps n es (failed S enabled faults model f stamp w).1.db
  unfolding failed
  failed-Keeps model f stamp n es w h =
      recovered_keeps (store_failed S enabled faults model f stamp w) stored
    where
      recovered_keeps :
          (p : Reply Unit × World S) → Keeps n es p.1.db → Keeps n es (recovered S tt p).1.db
      recovered_keeps (returns u, w') h = h
      recovered_keeps (raises, w') h = h

      stored : Keeps n es (store_failed S enabled faults model f stamp w).1.db
      stored = elim (Bool-cases model) [
        | inl table ↦ rw table (carried_keeps (Keeps n es) (faults w.commands) _ w h h)
        | inr no_table ↦ rw no_table (elim (Bool-cases enabled) [
          | inl on ↦ rw on (carried_keeps (Keeps n es) (faults w.commands) _ w h h)
          | inr off ↦ rw off h
        ])
      ]

  dispose-Keeps :
      (r : Reaping) (m n : ℕ) (es : List Entry) (e : Entry) (tries : Option ℕ) (w : World S)
      → copies S i w.db + weight i e ≤ n
      → reserved_jobs S w.db ≡ es
      → Keeps n es (dispose S enabled faults r m e tries w).1.db
  dispose-Keeps r m n es e none w h k = (omega (arith, h), k)
  dispose-Keeps r m n es e (some tries) w h k = elim (Bool-cases (leb tries e.attempts)) [
    | inl over ↦ rw over (
        failed-Keeps r.model_enabled (expired_job S enabled faults r m e) (r.clock m) n es w
          (omega (arith, h), k))
    | inr left ↦
        let back = unreserved S enabled faults e in
        let pushed = copies-push_ready S i back w.db in
        rw left (
          carried_keeps (Keeps n es) (faults w.commands) (tt, push_ready S back w.db) w
            (omega (arith, h, pushed), k) (omega (arith, h), k))
  ]

  -- Reaping one job, which stands after those that were passed over.
  abbrev Reaped : World S → List Entry → Reply Unit × World S → Type 0
  Reaped w es (returns u, w') = Keeps (held w) es w'.db
  Reaped w es (raises, w') = copies S i w'.db ≤ held w

  Keeps-Reaped :
      (w : World S) (es : List Entry) (p : Reply Unit × World S)
      → Keeps (held w) es p.1.db
      → Reaped w es p
  Keeps-Reaped w es (returns u, w') h = h
  Keeps-Reaped w es (raises, w') h = h.0

  reap_job-Reaped :
      (r : Reaping) (m : ℕ) (e : Entry) (kept rest : List Entry) (w : World S)
      → reserved_jobs S w.db ≡ kept ++ e ∷ rest
      → All (λ x. same_entry e x ≡ false) kept
      → Reaped w (kept ++ rest) (reap_job S enabled faults r m e w)
  reap_job-Reaped r m e kept rest w split apart = sent (faults w.commands)
    where
      gone : copies S i (drop_reserved S e w.db) + weight i e ≡ held w
      gone = copies-drop_reserved S i e w.db kept rest split

      left : reserved_jobs S (drop_reserved S e w.db) ≡ kept ++ rest
      left =
          job_list.items-lrem e w.db.reserved
          ∙ ap (remove_first same_entry e) split
          ∙ remove_first-passed e kept rest apart

      sent :
          (fault : Fault)
          → Reaped w (kept ++ rest) (
              bound S
                (λ (u : Unit).
                  dispose S enabled faults r m e (payload_max_tries (decode e.payload)))
                (carried S fault (tt, drop_reserved S e w.db) w))
      sent answered = Keeps-Reaped w (kept ++ rest) _ (
          dispose-Keeps r m (held w) (kept ++ rest) e (payload_max_tries (decode e.payload)) _
            (omega (arith, gone)) left)
      sent lost_request = omega arith
      sent lost_reply = omega (arith, gone)

  after_job :
      (r : Reaping) (m : ℕ) (es left : List Entry) (w : World S)
      → ((w' : World S)
          → reserved_jobs S w'.db ≡ left
          → held (reap_jobs S enabled faults r m es w').1 ≤ held w')
      → (p : Reply Unit × World S) → Reaped w left p
      → held (bound S (λ (u : Unit). reap_jobs S enabled faults r m es) p).1 ≤ held w
  after_job r m es left w ih (returns u, w') h = let rest = ih w' h.1 in omega (arith, rest, h)
  after_job r m es left w ih (raises, w') h = h

  apart_from :
      (r : Reaping) (e : Entry)
      → expired S enabled faults r e ≡ true
      → (x : Entry) → expired S enabled faults r x ≡ false
      → same_entry e x ≡ false
  apart_from r e old x young = elim (Bool-cases (same_entry e x)) [
    | inl same ↦
        let clash : expired S enabled faults r x ≡ true =
          subst (λ x. expired S enabled faults r x ≡ true) (same_entry_sound e x same) old in
        absurd (ground arith)
    | inr other ↦ other
  ]

  reap_jobs-le :
      (r : Reaping) (m : ℕ) (kept rest : List Entry) (w : World S)
      → reserved_jobs S w.db ≡ kept ++ rest
      → All (λ x. expired S enabled faults r x ≡ false) kept
      → held (reap_jobs S enabled faults r m rest w).1 ≤ held w
  unfolding reap_jobs
  reap_jobs-le r m kept [] w split fresh = omega arith
  reap_jobs-le r m kept (e ∷ es) w split fresh = elim (Bool-cases (expired S enabled faults r e)) [
    | inl old ↦
        rw (old, reap_jobs)
          (after_job r (m + 1) es (kept ++ es) w (λ w' h. reap_jobs-le r (m + 1) kept es w' h fresh)
            (reap_job S enabled faults r m e w)
            (reap_job-Reaped r m e kept es w split (All-imp (apart_from r e old) kept fresh)))
    | inr young ↦
        rw (young, reap_jobs)
          (reap_jobs-le r m (kept ++ e ∷ []) es w (split ∙ sym (append_assoc kept (e ∷ []) es)) (
            All-append (λ x. expired S enabled faults r x ≡ false) kept (e ∷ []) fresh (young, tt)))
  ]

  pub reap_expired-Adds : (r : Reaping) → Adds S i 0 (reap_expired S enabled faults r)
  unfolding reap_expired
  reap_expired-Adds r =
      if-Adds S i 0 enabled
        (λ w. bound S (reap_jobs S enabled faults r 0) (read S enabled faults (reserved_jobs S) w))
        (pure S 0) (λ w. looked_up w (faults w.commands)) (λ w. omega arith)
    where
      looked_up :
          (w : World S) (fault : Fault)
          → held
              (bound S
                (reap_jobs S enabled faults r 0)
                (carried S fault (reserved_jobs S w.db, w.db) w)).1
            ≤ held w + 0
      looked_up w answered =
          let done =
            reap_jobs-le r 0 [] (reserved_jobs S w.db)
              (record { db = w.db; commands = w.commands + 1 }) refl tt in
          omega (arith, done)
      looked_up w lost_request = omega arith
      looked_up w lost_reply = omega arith
