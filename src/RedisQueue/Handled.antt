-- ===== src/RedisQueue/Handled.antt =====
-- What the reaper makes of one reserved job, where every command is answered and failed jobs are kept
-- in Redis.
use route_mq.Prelude.{
  ℕ, ◌+◌, ◌≡◌, refl, sym, ap, ◌∙◌, inl, inr, Bool, true, false, not, ◌&&◌, none, some, List, [],
  ◌∷◌, ◌++◌, append-nil, arith, select, map, All, leb, if◌then◌else◌, Bool-cases,
}
use route_mq.Redis.{remove_first}
use route_mq.DatabaseQueue.{returns, payload_max_tries}
use route_mq.RedisQueue.{Entry, FailedEntry, Storage, Db, World, same_entry}
use route_mq.RedisQueue.Operations.{
  ready_jobs, reserved_jobs, failed_entries, unreserved, push_ready, drop_reserved,
}
use route_mq.RedisQueue.Failed.{failed, add_failed}
use route_mq.RedisQueue.Reaper.{Reaping, expired, expired_job, dispose, reap_job}
use route_mq.RedisQueue.Copies.Texts.{same_entry_sound, same_entry_refl}
use route_mq.RedisQueue.Due.{calm}

module _ (S : Storage) (r : Reaping) where
  open S use {jobs as job_list, failed_jobs as failed_list, decode}

  abbrev pub is_expired : Entry → Bool
  is_expired e = expired S true calm r e

  -- The tries that a payload allows, where it can be read.
  abbrev pub tries : Entry → ℕ
  tries e = elim (payload_max_tries (decode e.payload)) [ none ↦ 0 | some n ↦ n ]

  abbrev pub IsReadable : Entry → Type 0
  IsReadable e = payload_max_tries (decode e.payload) ≡ some (tries e)

  abbrev pub survivors : List Entry → List Entry
  survivors es =
      map (λ e. unreserved S true calm e)
        (select (λ e. is_expired e && not (leb (tries e) e.attempts)) es)

  -- The clock is read by how many jobs have been handled before.
  abbrev pub failures : ℕ → List Entry → List FailedEntry
  failures n [] = []
  failures n (e ∷ es) =
      if is_expired e
      then if leb (tries e) e.attempts
        then record { id = r.clock n; job = expired_job S true calm r n e } ∷ failures (n + 1) es
        else failures (n + 1) es
      else failures n es

  pub record IsSwept (n : ℕ) (kept es : List Entry) (old new : Db S) : Type 0 where
    pub reserved : reserved_jobs S new ≡ kept ++ select (λ e. not (is_expired e)) es
    pub ready : ready_jobs S new ≡ ready_jobs S old ++ survivors es
    pub failed : failed_entries S new ≡ failed_entries S old ++ failures n es
    pub delayed : new.delayed ≡ old.delayed
    pub table : new.table ≡ old.table

  remove_first-kept :
      (kept es : List Entry) (e : Entry)
      → All (λ x. is_expired x ≡ false) kept
      → is_expired e ≡ true
      → remove_first same_entry e (kept ++ e ∷ es) ≡ kept ++ es
  remove_first-kept [] es e h k = rw (same_entry_refl e) refl
  remove_first-kept (x ∷ xs) es e h k = elim (Bool-cases (same_entry e x)) [
    | inl same ↦
        let equal = ap is_expired (same_entry_sound e x same) in
        let fresh = h.0 in absurd (ground (arith, equal, fresh, k))
    | inr other ↦ rw other (ap (◌∷◌ x) (remove_first-kept xs es e h.1 k))
  ]

  -- A job of the reserved ones is handled.
  unfoldable pub handled : ℕ → Entry → World S → World S
  handled n e w = record {
    db =
        if leb (tries e) e.attempts
        then add_failed S true calm (record { id = r.clock n; job = expired_job S true calm r n e })
            (drop_reserved S e w.db)
        else push_ready S (unreserved S true calm e) (drop_reserved S e w.db);
    commands = w.commands + 1 + 1;
  }

  pub reap_job-calm :
      (n : ℕ) (e : Entry) (w : World S)
      → r.model_enabled ≡ false
      → IsReadable e
      → reap_job S true calm r n e w ≡ (returns tt, handled n e w)
  unfolding handled failed
  reap_job-calm n e w off readable = elim (Bool-cases (leb (tries e) e.attempts)) [
    | inl spent ↦ rw (readable, dispose) (rw (spent, if◌then◌else◌) (rw (off, if◌then◌else◌) refl))
    | inr left ↦ rw (readable, dispose) (rw (left, if◌then◌else◌) refl)
  ]

  pub survivors-cons :
      (e : Entry) (es : List Entry) → survivors (e ∷ es) ≡ survivors (e ∷ []) ++ survivors es
  survivors-cons e es = elim (Bool-cases (is_expired e && not (leb (tries e) e.attempts))) [
    | inl back ↦ rw back refl
    | inr gone ↦ rw gone refl
  ]

  pub failures-cons :
      (n : ℕ) (e : Entry) (es : List Entry)
      → is_expired e ≡ true
      → failures n (e ∷ es) ≡ failures n (e ∷ []) ++ failures (n + 1) es
  failures-cons n e es old = elim (Bool-cases (leb (tries e) e.attempts)) [
    | inl spent ↦ rw old (rw spent refl)
    | inr left ↦ rw old (rw left refl)
  ]

  pub handled-IsSwept :
      (n : ℕ) (kept es : List Entry) (e : Entry) (w : World S)
      → All (λ x. is_expired x ≡ false) kept
      → is_expired e ≡ true
      → reserved_jobs S w.db ≡ kept ++ e ∷ es
      → (reserved_jobs S (handled n e w).db ≡ kept ++ es)
        × (ready_jobs S (handled n e w).db ≡ ready_jobs S w.db ++ survivors (e ∷ []))
        × (failed_entries S (handled n e w).db ≡ failed_entries S w.db ++ failures n (e ∷ []))
        × ((handled n e w).db.delayed ≡ w.db.delayed)
        × ((handled n e w).db.table ≡ w.db.table)
  unfolding handled
  handled-IsSwept n kept es e w fresh old h =
      let off_list : job_list.items (job_list.lrem e w.db.reserved) ≡ kept ++ es =
        job_list.items-lrem e w.db.reserved
        ∙ ap (remove_first same_entry e) h
        ∙ remove_first-kept kept es e fresh old in
      elim (Bool-cases (leb (tries e) e.attempts)) [
        | inl spent ↦ rw spent (
            rw old
              (off_list, sym (append-nil _), failed_list.items-rpush _ w.db.failed, refl, refl))
        | inr left ↦
            rw left
              (rw old (off_list, job_list.items-rpush _ w.db.ready, sym (append-nil _), refl, refl))
      ]
