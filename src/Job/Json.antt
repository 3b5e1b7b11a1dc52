-- ===== src/Job/Json.antt =====
-- What JSON keeps of the object that `Job.serialize` of routemq/job.py writes.
use route_mq.Prelude.{◌≡◌, refl, some, List, [], ◌∷◌, All}
use route_mq.Text.{String}
use route_mq.Job.Payload.{
  Classes, Instance, Payload, get_data, get_observability_context, encode_dict, decode_dict, loads,
  job_object, serialize,
}

module _ (C : Classes) where
  open C use {V}

  -- A value that comes back from JSON as it was.
  abbrev pub IsStable : V → Type 0
  IsStable v = (j : C.Json) × (C.encode v ≡ some j) × (C.decode j ≡ v)

  -- The values that the payload of a job holds: its data, its settings and its context.
  abbrev pub HasStableValues : V → Instance C → Type 0
  HasStableValues snapshot job =
      All (λ (k, v). IsStable v) (get_data C job.dict)
      × All (λ (k, v). IsStable v) (job_object C snapshot job).settings
      × IsStable (get_observability_context C snapshot job)

  encode_dict-decode_dict :
      (d : List (String × V))
      → All (λ (k, v). IsStable v) d
      → (e : List (String × C.Json)) × (encode_dict C d ≡ some e) × (decode_dict C e ≡ d)
  unfolding encode_dict decode_dict
  encode_dict-decode_dict [] h = ([], refl, refl)
  encode_dict-decode_dict ((k, v) ∷ d) ((j, to, back), h) =
      let (e, all_to, all_back) = encode_dict-decode_dict d h in
      ((k, j) ∷ e, rw (to, all_to) refl, rw (back, all_back) refl)

  pub serialize-loads :
      (snapshot : V) (job : Instance C)
      → HasStableValues snapshot job
      → (t : Payload C.Json) × (serialize C snapshot job ≡ some t)
        × (loads C t ≡ job_object C snapshot job)
  unfolding serialize loads
  serialize-loads snapshot job (values, settings, (j, to, back)) =
      let (e, e_to, e_back) = encode_dict-decode_dict (get_data C job.dict) values in
      let (s, s_to, s_back) =
        encode_dict-decode_dict (job_object C snapshot job).settings settings in
      (
        record {
          class_name = some job.class_name;
          job_data = some e;
          observability = some j;
          settings = s;
        },
        rw (e_to, to, s_to) refl,
        rw (e_back, back, s_back) refl,
      )
