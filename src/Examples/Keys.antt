-- ===== src/Examples/Keys.antt =====
-- Runs of routemq/queue/redis_queue.py.
use route_mq.Prelude.{
  ℕ, ◌+◌, ◌≤◌, ◌≡◌, ◌≢◌, ◌↔◌, refl, true, false, Option, none, some, List, [], ◌∷◌, ◌++◌, map,
  length, select, ◌==◌, if◌then◌else◌,
}
use route_mq.Text.{String, codes}
use route_mq.DatabaseQueue.{returns, raises, payload_max_tries}
use route_mq.RedisQueue.{Entry, Fault, answered, lost_request, lost_reply, World}
use route_mq.RedisQueue.Operations.{ready_jobs, reserved_jobs, taken, popped, pop, release}
use route_mq.RedisQueue.Reaper.{Reaping, reap_expired}
use route_mq.RedisQueue.Copies.Moves.{copies}
use route_mq.RedisQueue.Copies.History.{
  Call, pushes, pops, releases, beats, run, pushed, run-copies,
}
use route_mq.RedisQueue.Due.{calm}
use route_mq.RedisQueue.Order.{IsTaken, pop-newest, Round, calls, served, run-starves}
use route_mq.RedisQueue.Loss.{release-loses}
use route_mq.RedisQueue.Handled.{is_expired, IsSwept}
use route_mq.RedisQueue.Reaped.{reap_expired-IsSwept}
use route_mq.RedisQueue.Ids.{
  failed_id, failed_job_queue_from_id, has_colon, failed_job_queue_from_id-failed_id,
}
use route_mq.Examples.Redis.{redis}

abbrev entry : ℕ → String → ℕ → Option ℕ → Entry
entry id payload attempts reserved = record {
  id = id;
  payload = payload;
  attempts = attempts;
  created_at = 10;
  reserved_at = reserved;
}

-- Two jobs wait, one is delayed until time 40, and two are reserved.
abbrev keys : World redis
keys = record {
  db = record {
    ready = entry 1 "a" 0 none ∷ entry 2 "b" 1 none ∷ [];
    reserved = entry 3 "c" 1 (some 20) ∷ entry 4 "d" 3 (some 20) ∷ [];
    delayed = ((entry 5 "e" 0 none, 40) ∷ [], (tt, tt));
    failed = [];
    table = record { stored = []; next = 1 };
  };
  commands = 0;
}

-- Nothing is delayed.
abbrev two_waiting : World redis
two_waiting = record {
  db = record {
    ready = entry 1 "a" 0 none ∷ entry 2 "b" 1 none ∷ [];
    reserved = [];
    delayed = ([], tt);
    failed = [];
    table = record { stored = []; next = 1 };
  };
  commands = 0;
}

-- The request of the third command is lost, and the answer to the seventh.
abbrev faults : ℕ → Fault
faults n = if n == 2 then lost_request else if n == 6 then lost_reply else answered

abbrev work : List Call
work = pops 50 51 ∷ pushes "f" 0 6 60 61 ∷ pops 70 71 ∷ releases 3 0 80 ∷ beats 4 90 ∷ []

abbrev round : String → ℕ → ℕ → Round
round payload stamp now = record {
  payload = payload;
  stamp = stamp;
  created = now;
  pushed_at = now;
  now = now + 1;
  later = now + 2;
}

abbrev rounds : List Round
rounds = round "x" 7 100 ∷ round "y" 8 110 ∷ []

-- Both reserved jobs have expired, and one of them has been tried three times.
abbrev reaping : Reaping
reaping = record {
  queue = "default";
  visibility = 1;
  now = 2000000;
  clock = λ n. 2000001 + n;
  message = "expired";
  model_enabled = false;
}

pop_due :
    (pop redis true calm 50 51 keys).0
    ≡ returns (some (popped redis true calm (entry 5 "e" 1 (some 51))))
unfolding pop
pop_due = refl

colon_lost : failed_job_queue_from_id (failed_id (codes "a:b") (codes "17")) ≡ some (codes "a")
unfolding failed_job_queue_from_id
colon_lost = refl

run-copies_example :
    copies redis 3 (run redis true faults work keys).db
    ≤ copies redis 3 keys.db + pushed redis true faults 3 work
run-copies_example = run-copies redis true faults 3 work keys

pop-newest_example :
    ((pop redis true calm 50 51 keys).0
      ≡ returns (some (popped redis true calm (taken redis true calm 51 (entry 5 "e" 0 none)))))
    × IsTaken redis 50 51
        (entry 5 "e" 0 none)
        (entry 1 "a" 0 none ∷ entry 2 "b" 1 none ∷ [])
        keys.db
        (pop redis true calm 50 51 keys).1.db
pop-newest_example =
    pop-newest redis 50 51 keys (entry 1 "a" 0 none ∷ entry 2 "b" 1 none ∷ []) (entry 5 "e" 0 none)
      refl

run-starves_example :
    (ready_jobs redis (run redis true calm (calls rounds) two_waiting).db
      ≡ ready_jobs redis two_waiting.db)
    × (reserved_jobs redis (run redis true calm (calls rounds) two_waiting).db
        ≡ reserved_jobs redis two_waiting.db ++ map (served redis) rounds)
run-starves_example = run-starves redis rounds two_waiting refl

release-loses_example :
    ((release redis true faults 3 5 30 keys).0 ≡ raises)
    × (copies redis 3 (release redis true faults 3 5 30 keys).1.db + 1 ≡ copies redis 3 keys.db)
release-loses_example =
    release-loses redis faults 3 5 30 keys (entry 3 "c" 1 (some 20)) refl refl refl refl

reap_expired-IsSwept_example :
    ((reap_expired redis true calm reaping keys).0
      ≡ returns (length (select (is_expired redis reaping) (reserved_jobs redis keys.db))))
    × IsSwept redis reaping 0 []
        (reserved_jobs redis keys.db)
        keys.db
        (reap_expired redis true calm reaping keys).1.db
unfolding payload_max_tries
reap_expired-IsSwept_example = reap_expired-IsSwept redis reaping keys refl (refl, (refl, tt))

failed_job_queue_from_id-failed_id_example :
    (failed_job_queue_from_id (failed_id (codes "a:b") (codes "17")) ≡ some (codes "a:b"))
    ↔ ((codes "a:b" ≢ []) × (has_colon (codes "a:b") ≡ false))
failed_job_queue_from_id-failed_id_example =
    failed_job_queue_from_id-failed_id (codes "a:b") (codes "17")
