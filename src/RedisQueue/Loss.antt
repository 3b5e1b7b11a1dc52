-- ===== src/RedisQueue/Loss.antt =====
-- A release whose command that puts the job back does not reach the server.
use route_mq.Prelude.{
  ℕ, ◌+◌, ◌≡◌, refl, inl, inr, true, some, ◌∷◌, ◌++◌, arith, ltb, first-cases, Bool-cases, ◌==◌,
}
use route_mq.DatabaseQueue.{raises, seconds}
use route_mq.RedisQueue.{Entry, Storage, Fault, answered, lost_request, Db, World}
use route_mq.RedisQueue.Operations.{
  carried, reserved_jobs, drop_reserved, add_delayed, push_ready, write, put_back, find_job,
  unreserved, release_found, release,
}
use route_mq.RedisQueue.Copies.Texts.{weight}
use route_mq.RedisQueue.Copies.Moves.{copies, copies-drop_reserved}

module _ (S : Storage) (faults : ℕ → Fault) where
  -- A write whose request is lost.
  write-lost :
      (f : Db S → Db S) (w : World S)
      → faults w.commands ≡ lost_request
      → write S true faults f w ≡ (raises, record w { commands = w.commands + 1 })
  write-lost f w h = rw (h, carried) refl

  put_back-lost :
      (e : Entry) (delay now : ℕ) (w : World S)
      → faults w.commands ≡ lost_request
      → put_back S true faults e delay now w ≡ (raises, record w { commands = w.commands + 1 })
  put_back-lost e delay now w h = elim (Bool-cases (ltb 0 delay)) [
    | inl later ↦ rw later (write-lost (add_delayed S e (now + seconds delay)) w h)
    | inr at_once ↦ rw at_once (write-lost (push_ready S e) w h)
  ]

  drop_reserved-found :
      (id : ℕ) (db : Db S) (e : Entry)
      → find_job S true faults id (reserved_jobs S db) ≡ some e
      → copies S id (drop_reserved S e db) + 1 ≡ copies S id db
  drop_reserved-found id db e found = elim (first-cases (λ e. e.id == id) (reserved_jobs S db)) [
    | inl (absent, _) ↦ absurd (ground (arith, found, absent))
    | inr (before, x, after, there, split, passed, hit) ↦
        let same : e ≡ x = cc in
        let its_id : e.id ≡ id = rw same (ground arith) in
        let split_e : reserved_jobs S db ≡ before ++ e ∷ after = rw same split in
        let gone = copies-drop_reserved S id e db before after split_e in
        let one : weight id e ≡ 1 = ground arith in omega (arith, gone, one)
  ]

  -- Where the reserved jobs are read and the job is taken off them, but the command that puts it back
  -- is lost, `release` raises and one copy of the job is gone.
  pub release-loses :
      (id delay now : ℕ) (w : World S) (e : Entry)
      → find_job S true faults id (reserved_jobs S w.db) ≡ some e
      → faults w.commands ≡ answered
      → faults (w.commands + 1) ≡ answered
      → faults (w.commands + 1 + 1) ≡ lost_request
      → ((release S true faults id delay now w).0 ≡ raises)
        × (copies S id (release S true faults id delay now w).1.db + 1 ≡ copies S id w.db)
  unfolding release
  release-loses id delay now w e found read_ok drop_ok lost =
      let next : World S = record { db = drop_reserved S e w.db; commands = w.commands + 1 + 1 } in
      rw (read_ok, carried)
        (rw (found, release_found)
          (rw (drop_ok, carried)
            (rw (put_back-lost (unreserved S true faults e) delay now next lost)
              (refl, drop_reserved-found id w.db e found))))
