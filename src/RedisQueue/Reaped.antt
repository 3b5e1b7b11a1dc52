-- ===== src/RedisQueue/Reaped.antt =====
-- What `reap_expired` makes of the reserved jobs, where every command is answered and failed jobs are
-- kept in Redis.
use route_mq.Prelude.{
  ℕ, ◌+◌, ◌≡◌, refl, sym, ap, ◌∙◌, inl, inr, true, false, not, List, [], ◌∷◌, ◌++◌, append-nil,
  append_assoc, arith, select, length, All, All-append, Bool-cases,
}
use route_mq.DatabaseQueue.{returns}
use route_mq.RedisQueue.{Entry, Storage, Db, World}
use route_mq.RedisQueue.Operations.{ready_jobs, reserved_jobs, failed_entries}
use route_mq.RedisQueue.Reaper.{Reaping, reap_jobs, reap_expired}
use route_mq.RedisQueue.Due.{calm}
use route_mq.RedisQueue.Handled.{
  is_expired, IsReadable, survivors, failures, IsSwept, handled, reap_job-calm, survivors-cons,
  failures-cons, handled-IsSwept,
}

module _ (S : Storage) (r : Reaping) where
  open S use {jobs as job_list, failed_jobs as failed_list, decode}

  reap_jobs-nil : (n : ℕ) (w : World S) → reap_jobs S true calm r n [] w ≡ (returns n, w)
  unfolding reap_jobs
  reap_jobs-nil n w = refl

  reap_jobs-expired :
      (n : ℕ) (e : Entry) (es : List Entry) (w : World S)
      → is_expired S r e ≡ true
      → r.model_enabled ≡ false
      → IsReadable S r e
      → reap_jobs S true calm r n (e ∷ es) w
        ≡ reap_jobs S true calm r (n + 1) es (handled S r n e w)
  unfolding reap_jobs
  reap_jobs-expired n e es w old off readable =
      rw (old, reap_jobs) (rw (reap_job-calm S r n e w off readable) refl)

  reap_jobs-fresh :
      (n : ℕ) (e : Entry) (es : List Entry) (w : World S)
      → is_expired S r e ≡ false
      → reap_jobs S true calm r n (e ∷ es) w ≡ reap_jobs S true calm r n es w
  unfolding reap_jobs
  reap_jobs-fresh n e es w young = rw (young, reap_jobs) refl

  -- An expired job that is handled, and then the rest.
  expired-IsSwept :
      (n : ℕ) (kept es : List Entry) (e : Entry) (w : World S) (new : Db S)
      → All (λ x. is_expired S r x ≡ false) kept
      → is_expired S r e ≡ true
      → reserved_jobs S w.db ≡ kept ++ e ∷ es
      → IsSwept S r (n + 1) kept es (handled S r n e w).db new
      → IsSwept S r n kept (e ∷ es) w.db new
  expired-IsSwept n kept es e w new fresh old h rest =
      let here = handled-IsSwept S r n kept es e w fresh old h in
      let others : select (λ x. not (is_expired S r x)) (e ∷ es)
          ≡ select (λ x. not (is_expired S r x)) es =
        rw old refl in
      record {
        reserved = rest.reserved ∙ ap (λ xs. kept ++ xs) (sym others);
        ready =
            rest.ready
            ∙ ap (λ xs. xs ++ survivors S r es) here.1
            ∙ append_assoc (ready_jobs S w.db) (survivors S r (e ∷ [])) (survivors S r es)
            ∙ ap (λ xs. ready_jobs S w.db ++ xs) (sym (survivors-cons S r e es));
        failed =
            rest.failed
            ∙ ap (λ xs. xs ++ failures S r (n + 1) es) here.2
            ∙ append_assoc (failed_entries S w.db) (failures S r n (e ∷ []))
                (failures S r (n + 1) es)
            ∙ ap (λ xs. failed_entries S w.db ++ xs) (sym (failures-cons S r n e es old));
        delayed = rest.delayed ∙ here.3;
        table = rest.table ∙ here.4;
      }

  fresh-IsSwept :
      (n : ℕ) (kept es : List Entry) (e : Entry) (old new : Db S)
      → is_expired S r e ≡ false
      → IsSwept S r n (kept ++ e ∷ []) es old new
      → IsSwept S r n kept (e ∷ es) old new
  fresh-IsSwept n kept es e old new young rest =
      let others : select (λ x. not (is_expired S r x)) (e ∷ es)
          ≡ e ∷ select (λ x. not (is_expired S r x)) es =
        rw young refl in
      let same_survivors : survivors S r (e ∷ es) ≡ survivors S r es = rw young refl in
      let same_failures : failures S r n (e ∷ es) ≡ failures S r n es = rw young refl in
      record {
        reserved =
            rest.reserved
            ∙ append_assoc kept (e ∷ []) (select (λ x. not (is_expired S r x)) es)
            ∙ ap (λ xs. kept ++ xs) (sym others);
        ready = rest.ready ∙ ap (λ xs. ready_jobs S old ++ xs) (sym same_survivors);
        failed = rest.failed ∙ ap (λ xs. failed_entries S old ++ xs) (sym same_failures);
        delayed = rest.delayed;
        table = rest.table;
      }

  reap_jobs-IsSwept :
      (n : ℕ) (kept es : List Entry) (w : World S)
      → r.model_enabled ≡ false
      → All (λ x. is_expired S r x ≡ false) kept
      → All (IsReadable S r) es
      → reserved_jobs S w.db ≡ kept ++ es
      → ((reap_jobs S true calm r n es w).0 ≡ returns (n + length (select (is_expired S r) es)))
        × IsSwept S r n kept es w.db (reap_jobs S true calm r n es w).1.db
  reap_jobs-IsSwept n kept [] w off fresh readable h = rw (reap_jobs-nil n w) (
    ap returns (omega arith),
    record {
      reserved = h;
      ready = sym (append-nil (ready_jobs S w.db));
      failed = sym (append-nil (failed_entries S w.db));
      delayed = refl;
      table = refl;
    },
  )
  reap_jobs-IsSwept n kept (e ∷ es) w off fresh readable h = elim (Bool-cases (is_expired S r e)) [
    | inl old ↦
        let here = handled-IsSwept S r n kept es e w fresh old h in
        let (reply, rest) =
          reap_jobs-IsSwept (n + 1) kept es (handled S r n e w) off fresh readable.1 here.0 in
        let counted : length (select (is_expired S r) (e ∷ es))
            ≡ length (select (is_expired S r) es) + 1 =
          rw old (omega arith) in
        rw (reap_jobs-expired n e es w old off readable.0) (
          reply ∙ ap returns (omega (arith, counted)),
          expired-IsSwept n kept es e w _ fresh old h rest,
        )
    | inr young ↦
        let now_kept = All-append (λ x. is_expired S r x ≡ false) kept (e ∷ []) fresh (young, tt) in
        let (reply, rest) =
          reap_jobs-IsSwept n (kept ++ e ∷ []) es w off now_kept readable.1
            (h ∙ sym (append_assoc kept (e ∷ []) es)) in
        let counted : select (is_expired S r) (e ∷ es) ≡ select (is_expired S r) es =
          rw young refl in
        rw (reap_jobs-fresh n e es w young) (
          reply ∙ ap (λ xs. returns (n + length xs)) (sym counted),
          fresh-IsSwept n kept es e w.db _ young rest,
        )
  ]

  -- Where every command is answered, failed jobs are kept in Redis and all payloads can be read, the
  -- reaper takes just the expired jobs off the reserved ones: those with tries left wait again, and
  -- the others are failed, in their order. It returns how many there were.
  pub reap_expired-IsSwept :
      (w : World S)
      → r.model_enabled ≡ false
      → All (IsReadable S r) (reserved_jobs S w.db)
      → ((reap_expired S true calm r w).0
          ≡ returns (length (select (is_expired S r) (reserved_jobs S w.db))))
        × IsSwept S r 0 [] (reserved_jobs S w.db) w.db (reap_expired S true calm r w).1.db
  unfolding reap_expired
  reap_expired-IsSwept w off readable =
      let listed : World S = record { db = w.db; commands = w.commands + 1 } in
      let (reply, rest) =
        reap_jobs-IsSwept 0 [] (reserved_jobs S w.db) listed off tt readable refl in
      (reply ∙ ap returns (omega arith), rest)
