-- ===== src/Job/Loading.antt =====
-- A job that is loaded from the payload of a job.
use text.Mathlib.Text.{◌==◌ as str_eq}
use route_mq.Prelude.{
  ◌≡◌, refl, ◌∙◌, Bool, true, false, not, ◌&&◌, ◌||◌, some, List, [], ◌∷◌, arith, All, All-imp,
  get_or, if◌then◌else◌,
}
use route_mq.Text.{String}
use route_mq.Job.Payload.{
  Classes, is_private, is_left_out, is_member, Instance, getattr, setattr, Payload, get_data,
  job_object, serialize, restore_max_tries, restore_timeout, restore_retry_after, restore_enabled,
  restore_max_delay, restore_jitter, restore_settings, restore_data, restore, unserialize, build,
}
use route_mq.Job.Json.{HasStableValues, serialize-loads}
use route_mq.Job.Restored.{
  getattr-setattr, getattr-setattr_other, HasDistinctKeys, IsData, get_data-IsData,
  get_data-HasDistinctKeys, is_private-apart, is_left_out-apart, restore_data-other,
  restore_data-restores,
}

module _ (C : Classes) where
  open C use {V, attribute, construct, text}

  -- The settings that every payload has, and all data of a job, in another job.
  pub record IsRestored (old new : Instance C) : Type 0 where
    pub class_name : new.class_name ≡ old.class_name
    pub max_tries : getattr C "max_tries" new ≡ getattr C "max_tries" old
    pub timeout : getattr C "timeout" new ≡ getattr C "timeout" old
    pub retry_after : getattr C "retry_after" new ≡ getattr C "retry_after" old
    pub queue : getattr C "queue" new ≡ getattr C "queue" old
    pub attributes : All (λ (k, v). getattr C k new ≡ v) (get_data C old.dict)

  after_context :
      (default : String → V) (context : V) (kvs d : List (String × V))
      → All (IsData C) kvs
      → All (λ (k, v). get_or str_eq (default k) k d ≡ v) kvs
      → All
          (λ (k, v). get_or str_eq (default k) k (setattr C "_observability_context" context d) ≡ v)
          kvs
  after_context default context [] d public h = tt
  after_context default context ((k, v) ∷ kvs) d public h = (
    getattr-setattr_other C (default k) k "_observability_context" context d
          (is_private-apart C k "_observability_context" public.0.0 refl)
        ∙ h.0,
    after_context default context kvs d public.1 h.1,
  )

  -- The settings that are set after `retry_after` do not change the others.
  restore_settings-earlier :
      (default : V) (name : String) (p : Payload V) (d : List (String × V))
      → str_eq name "queue" ≡ false
      → str_eq name "retry_backoff_jitter" ≡ false
      → str_eq name "retry_backoff_max_delay" ≡ false
      → str_eq name "retry_backoff_enabled" ≡ false
      → get_or str_eq default name (restore_settings C p d)
        ≡ get_or str_eq default name (restore_retry_after C p d)
  restore_settings-earlier default name p d h k l m =
      getattr-setattr_other C default name "queue" _ (restore_jitter C p d) h
      ∙ getattr-setattr_other C default name "retry_backoff_jitter" _ (restore_max_delay C p d) k
      ∙ getattr-setattr_other C default name "retry_backoff_max_delay" _ (restore_enabled C p d) l
      ∙ getattr-setattr_other C default name "retry_backoff_enabled" _ (restore_retry_after C p d) m

  module _ (snapshot : V) (job : Instance C) (fresh : List (String × V)) where
    abbrev pub loaded : Instance C
    loaded = record {
      class_name = job.class_name;
      dict = restore C (job_object C snapshot job) fresh;
    }

    -- A setting that is no data is what `restore_settings` makes it.
    loaded-setting :
        (name : String)
        → is_left_out name ≡ true
        → is_private name ≡ false
        → getattr C name loaded
          ≡ get_or str_eq
              (attribute job.class_name name)
              name
              (restore_settings C (job_object C snapshot job) fresh)
    unfolding job_object
    loaded-setting name left_out public =
        let default = attribute job.class_name name in
        let settings = restore_settings C (job_object C snapshot job) fresh in
        let kvs = get_data C job.dict in
        let apart =
          All-imp (λ (k, v) is_data. is_left_out-apart C name k left_out is_data.1) kvs
            (get_data-IsData C job.dict) in
        getattr-setattr_other C default name "_observability_context" _
          (restore_data C kvs settings)
          (is_private-apart C name "_observability_context" public refl)
        ∙ restore_data-other C default name kvs settings (get_data-IsData C job.dict) apart

    payload : Payload V
    payload = job_object C snapshot job

    loaded-max_tries : getattr C "max_tries" loaded ≡ getattr C "max_tries" job
    unfolding payload job_object
    loaded-max_tries =
        let default = attribute job.class_name "max_tries" in
        loaded-setting "max_tries" refl refl
        ∙ restore_settings-earlier default "max_tries" payload fresh refl refl refl refl
        ∙ getattr-setattr_other C default "max_tries" "retry_after" _
            (restore_timeout C payload fresh) refl
        ∙ getattr-setattr_other C default "max_tries" "timeout" _
            (restore_max_tries C payload fresh) refl
        ∙ getattr-setattr C default "max_tries" (getattr C "max_tries" job) fresh

    loaded-timeout : getattr C "timeout" loaded ≡ getattr C "timeout" job
    unfolding payload job_object
    loaded-timeout =
        let default = attribute job.class_name "timeout" in
        loaded-setting "timeout" refl refl
        ∙ restore_settings-earlier default "timeout" payload fresh refl refl refl refl
        ∙ getattr-setattr_other C default "timeout" "retry_after" _
            (restore_timeout C payload fresh) refl
        ∙ getattr-setattr C default "timeout" (getattr C "timeout" job)
            (restore_max_tries C payload fresh)

    loaded-retry_after : getattr C "retry_after" loaded ≡ getattr C "retry_after" job
    unfolding payload job_object
    loaded-retry_after =
        let default = attribute job.class_name "retry_after" in
        loaded-setting "retry_after" refl refl
        ∙ restore_settings-earlier default "retry_after" payload fresh refl refl refl refl
        ∙ getattr-setattr C default "retry_after" (getattr C "retry_after" job)
            (restore_timeout C payload fresh)

    loaded-queue : getattr C "queue" loaded ≡ getattr C "queue" job
    unfolding payload job_object
    loaded-queue =
        loaded-setting "queue" refl refl
        ∙ getattr-setattr C (attribute job.class_name "queue") "queue" (getattr C "queue" job)
            (restore_jitter C payload fresh)

    loaded-IsRestored : HasDistinctKeys C job.dict → IsRestored job loaded
    unfolding job_object
    loaded-IsRestored apart = record {
      class_name = refl;
      max_tries = loaded-max_tries;
      timeout = loaded-timeout;
      retry_after = loaded-retry_after;
      queue = loaded-queue;
      attributes =
          after_context (attribute job.class_name) _ (get_data C job.dict) _
            (get_data-IsData C job.dict)
            (restore_data-restores C (attribute job.class_name) (get_data C job.dict) _
              (get_data-IsData C job.dict) (get_data-HasDistinctKeys C job.dict apart));
    }

  -- A job of a class that is registered, or with the allow-list switched off, is serialized and read
  -- back from its payload, where its class can make a new one, no two of its attributes have one
  -- name, and JSON gives back the values of its data, its settings and its context: with its class,
  -- its queue, tries, timeout and delay, and each attribute that its data has.
  pub unserialize-serialize :
      (disabled : Bool) (allowed : List String) (snapshot : V) (job : Instance C)
      → (fresh : List (String × V)) → (disabled || is_member job.class_name allowed) ≡ true
      → construct job.class_name ≡ some fresh
      → HasDistinctKeys C job.dict
      → HasStableValues C snapshot job
      → (t : Payload C.Json) × (serialize C snapshot job ≡ some t)
        × ((new : Instance C) × (unserialize C disabled allowed t ≡ some new) × IsRestored job new)
  unfolding unserialize job_object
  unserialize-serialize disabled allowed snapshot job fresh listed made apart stable =
      let passed : (not disabled && not (is_member job.class_name allowed)) ≡ false =
        ground (arith, listed) in
      let (t, written, read) = serialize-loads C snapshot job stable in
      (
        t,
        written,
        (
          loaded snapshot job fresh,
          rw read (rw (passed, if◌then◌else◌) (rw (made, build) refl)),
          loaded-IsRestored snapshot job fresh apart,
        ),
      )
