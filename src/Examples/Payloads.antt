-- ===== src/Examples/Payloads.antt =====
-- Runs of `Job.serialize` and `Job.unserialize` of routemq/job.py.
use text.Mathlib.Text.{◌==◌ as str_eq}
use mathlib.Core.Option
use route_mq.Job.Json.{HasStableValues}
use route_mq.Prelude.{
  ◌==◌, ◌-◌, leb, true, ℕ, ◌≡◌, refl, false, Option, none, some, List, [], ◌∷◌, if◌then◌else◌,
}
use route_mq.Text.{String}
use route_mq.Job.Payload.{Classes, Instance, Payload, getattr, job_object, serialize, unserialize}
use route_mq.Job.Loading.{IsRestored, unserialize-serialize}

-- One class, whose new jobs have two attributes.
abbrev made : String → Option (List (String × ℕ))
made name = if str_eq name "app.Mail" then some (("job_id", 0) ∷ ("attempts", 0) ∷ []) else none

-- From 1000 on there are tuples, which are written as the lists below 1000, and 999 is no value of
-- JSON.
abbrev written : ℕ → Option ℕ
written v = if v == 999 then none else if leb 1000 v then some (v - 1000) else some v

abbrev app : Classes
app = record {
  V = ℕ;
  number = λ n. n;
  text = λ s. 7;
  no = 0;
  nothing = 0;
  empty_dict = 100;
  truth = λ v. v;
  is_dict = λ v. v == 100;
  Json = ℕ;
  encode = written;
  decode = λ n. n;
  attribute = λ name key. 3;
  construct = made;
}

abbrev mail : Instance app
mail = record {
  class_name = "app.Mail";
  dict = ("job_id", 12) ∷ ("attempts", 2) ∷ ("address", 55) ∷ ("queue", 8) ∷ [];
}

abbrev address_of : ℕ → Instance app
address_of n = record { class_name = "app.Mail"; dict = ("address", n) ∷ [] }

-- A class that is not registered is refused, and a value that JSON has no text for.
refused : Option.bind (serialize app 100 mail) (unserialize app false []) ≡ none
unfolding unserialize serialize Option.bind
refused = refl

unwritten : serialize app 100 (address_of 999) ≡ none
unfolding serialize
unwritten = refl

-- A tuple comes back as a list.
tuple_lost :
    Option.map
      (λ new. getattr app "address" new)
      (Option.bind (serialize app 100 (address_of 1055)) (unserialize app true []))
    ≡ some 55
unfolding unserialize serialize Option.bind
tuple_lost = refl

mail-HasStableValues : HasStableValues app 100 mail
unfolding job_object
mail-HasStableValues = (
  ((55, refl, refl), tt),
  (
    (3, refl, refl),
    (
      (3, refl, refl),
      (
        (3, refl, refl),
        ((3, refl, refl), ((3, refl, refl), ((3, refl, refl), ((8, refl, refl), tt)))),
      ),
    ),
  ),
  (100, refl, refl),
)

unserialize-serialize_example :
    (t : Payload ℕ) × (serialize app 100 mail ≡ some t)
    × ((new : Instance app) × (unserialize app false ("app.Mail" ∷ []) t ≡ some new)
        × IsRestored app mail new)
unserialize-serialize_example =
    unserialize-serialize app false ("app.Mail" ∷ []) 100 mail
      (("job_id", 0) ∷ ("attempts", 0) ∷ []) refl refl
      ((refl, (refl, (refl, tt))), ((refl, (refl, tt)), ((refl, tt), (tt, tt))))
      mail-HasStableValues
