-- ===== src/Job/Payload.antt =====
-- `Job.serialize` and `Job.unserialize` of routemq/job.py. The text of a payload is given by its JSON
-- object. What JSON makes of a value, and the classes of the application, are a parameter.
use text.Mathlib.Text.{◌==◌ as str_eq}
use mathlib.Core.Option
use route_mq.Prelude.{
  ℕ, Bool, false, not, ◌&&◌, ◌||◌, Option, none, some, List, [], ◌∷◌, select, get_or, change, ◌==◌,
  if◌then◌else◌,
}
use route_mq.Text.{String, codes}

-- Values, and what Python does with them, and the classes by their full names.
pub record Classes : Type 1 where
  pub V : Type 0
  pub number : ℕ → V
  pub text : String → V
  pub no : V
  pub nothing : V
  pub empty_dict : V
  -- `bool(value)`
  pub truth : V → V
  pub is_dict : V → Bool
  -- What `json.dumps` writes for a value; `none` is its TypeError or ValueError.
  pub Json : Type 0
  pub encode : V → Option Json
  -- What `json.loads` reads: lists for tuples, and strings for the keys of a dict.
  pub decode : Json → V
  -- a class attribute
  pub attribute : String → String → V
  -- the `__dict__` of a new job; `none` is an exception of the import or of the class
  pub construct : String → Option (List (String × V))

abbrev starts_underscore : List ℕ → Bool
starts_underscore [] = false
starts_underscore (c ∷ cs) = c == b'_'

-- `key.startswith('_')`
abbrev pub is_private : String → Bool
is_private key = starts_underscore (codes key)

-- The attributes that `get_data` leaves out.
abbrev pub is_left_out : String → Bool
is_left_out key =
    str_eq key "job_id"
    || (str_eq key "attempts"
        || (str_eq key "max_tries"
            || (str_eq key "timeout" || (str_eq key "retry_after" || str_eq key "queue"))))

abbrev pub is_member : String → List String → Bool
is_member name [] = false
is_member name (n ∷ ns) = str_eq name n || is_member name ns

-- The object of a payload: its keys `class`, `data` (`job_data`) and `observability`, and the others.
pub record Payload (A : Type 0) : Type 0 where
  pub class_name : Option String
  pub job_data : Option (List (String × A))
  pub observability : Option A
  pub settings : List (String × A)

module _ (C : Classes) where
  open C use {
    V, number, text, no, nothing, empty_dict, truth, is_dict, Json, encode, decode, attribute,
    construct,
  }

  encode_entry :
      String → Option Json → Option (List (String × Json)) → Option (List (String × Json))
  encode_entry key (some j) (some d) = some ((key, j) ∷ d)
  encode_entry _ _ _ = none

  unfoldable pub encode_dict : List (String × V) → Option (List (String × Json))
  unfolding encode_entry
  encode_dict [] = some []
  encode_dict ((key, v) ∷ d) = encode_entry key (encode v) (encode_dict d)

  unfoldable pub decode_dict : List (String × Json) → List (String × V)
  decode_dict [] = []
  decode_dict ((key, j) ∷ d) = (key, decode j) ∷ decode_dict d

  -- A key that is missing writes nothing.
  optional : {A B : Type 0} → (A → Option B) → Option A → Option (Option B)
  optional f none = some none
  optional f (some x) = Option.map some (f x)

  encoded :
      Option String
      → Option (Option (List (String × Json)))
      → Option (Option Json)
      → Option (List (String × Json))
      → Option (Payload Json)
  encoded name (some d) (some o) (some s) =
      some (record { class_name = name; job_data = d; observability = o; settings = s })
  encoded _ _ _ _ = none

  -- `json.dumps` of the object: each of its values is written, or it raises.
  unfoldable pub dumps : Payload V → Option (Payload Json)
  unfolding encode_dict optional encoded
  dumps p =
      encoded p.class_name (optional encode_dict p.job_data) (optional encode p.observability)
        (encode_dict p.settings)

  -- `json.loads` of the text of an object.
  unfoldable pub loads : Payload Json → Payload V
  unfolding decode_dict
  loads p = record {
    class_name = p.class_name;
    job_data = Option.map decode_dict p.job_data;
    observability = Option.map decode p.observability;
    settings = decode_dict p.settings;
  }

  -- A job: its class and its `__dict__`.
  pub record Instance : Type 0 where
    pub class_name : String
    pub dict : List (String × V)

  abbrev pub getattr : String → Instance → V
  getattr name job = get_or str_eq (attribute job.class_name name) name job.dict

  abbrev pub setattr : String → V → List (String × V) → List (String × V)
  setattr name v d = change str_eq v name (λ old. v) d

  abbrev pub get_data : List (String × V) → List (String × V)
  get_data = select λ (key, v). not (is_private key) && not (is_left_out key)

  -- `snapshot` is the current observability context.
  abbrev pub get_observability_context : V → Instance → V
  get_observability_context snapshot job =
      let context = get_or str_eq nothing "_observability_context" job.dict in
      if is_dict context then context else snapshot

  -- The dict that `serialize` builds.
  unfoldable pub job_object : V → Instance → Payload V
  job_object snapshot job = record {
    class_name = some job.class_name;
    job_data = some (get_data job.dict);
    observability = some (get_observability_context snapshot job);
    settings =
        ("max_tries", getattr "max_tries" job)
        ∷ ("timeout", getattr "timeout" job)
        ∷ ("retry_after", getattr "retry_after" job)
        ∷ ("retry_backoff_enabled", getattr "retry_backoff_enabled" job)
        ∷ ("retry_backoff_max_delay", getattr "retry_backoff_max_delay" job)
        ∷ ("retry_backoff_jitter", getattr "retry_backoff_jitter" job)
        ∷ ("queue", getattr "queue" job)
        ∷ [];
  }

  -- `none` is an exception of `json.dumps`.
  unfoldable pub serialize : V → Instance → Option (Payload Json)
  unfolding job_object dumps
  serialize snapshot job = dumps (job_object snapshot job)

  abbrev setting : V → String → Payload V → V
  setting default name p = get_or str_eq default name p.settings

  abbrev pub restore_max_tries : Payload V → List (String × V) → List (String × V)
  restore_max_tries p d = setattr "max_tries" (setting (number 3) "max_tries" p) d

  abbrev pub restore_timeout : Payload V → List (String × V) → List (String × V)
  restore_timeout p d = setattr "timeout" (setting (number 60) "timeout" p) (restore_max_tries p d)

  abbrev pub restore_retry_after : Payload V → List (String × V) → List (String × V)
  restore_retry_after p d =
      setattr "retry_after" (setting (number 0) "retry_after" p) (restore_timeout p d)

  abbrev pub restore_enabled : Payload V → List (String × V) → List (String × V)
  restore_enabled p d =
      setattr "retry_backoff_enabled" (truth (setting no "retry_backoff_enabled" p))
        (restore_retry_after p d)

  abbrev pub restore_max_delay : Payload V → List (String × V) → List (String × V)
  restore_max_delay p d =
      setattr "retry_backoff_max_delay" (setting nothing "retry_backoff_max_delay" p)
        (restore_enabled p d)

  abbrev pub restore_jitter : Payload V → List (String × V) → List (String × V)
  restore_jitter p d =
      setattr "retry_backoff_jitter" (setting nothing "retry_backoff_jitter" p)
        (restore_max_delay p d)

  abbrev pub restore_settings : Payload V → List (String × V) → List (String × V)
  restore_settings p d = setattr "queue" (setting (text "default") "queue" p) (restore_jitter p d)

  abbrev pub restore_data : List (String × V) → List (String × V) → List (String × V)
  restore_data [] d = d
  restore_data ((key, v) ∷ kvs) d =
      restore_data kvs
        (if is_private key || str_eq key "_allowed_classes" then d else setattr key v d)

  abbrev pub data_or_empty : Option (List (String × V)) → List (String × V)
  data_or_empty none = []
  data_or_empty (some kvs) = kvs

  abbrev pub context_or_empty : Option V → V
  context_or_empty none = empty_dict
  context_or_empty (some context) = if is_dict context then context else empty_dict

  abbrev pub restore : Payload V → List (String × V) → List (String × V)
  restore p fresh =
      setattr "_observability_context" (context_or_empty p.observability)
        (restore_data (data_or_empty p.job_data) (restore_settings p fresh))

  abbrev pub build : Payload V → String → Option (List (String × V)) → Option Instance
  build p name none = none
  build p name (some fresh) = some (record { class_name = name; dict = restore p fresh })

  abbrev pub load : (disabled : Bool) → List String → Payload V → Option String → Option Instance
  load disabled allowed p none = none
  load disabled allowed p (some name) =
      let loaded = build p name (construct name) in
      if not disabled && not (is_member name allowed) then none else loaded

  -- `disabled` is whether ROUTEMQ_JOB_ALLOWLIST_DISABLED is "1", and `allowed` has the registered
  -- classes; `none` is an exception.
  unfoldable pub unserialize : (disabled : Bool) → List String → Payload Json → Option Instance
  unfolding loads
  unserialize disabled allowed t = load disabled allowed (loads t) (loads t).class_name
