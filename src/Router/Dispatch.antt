-- ===== src/Router/Dispatch.antt =====
-- `Route`, `Router` and `RouterGroup` of routemq/router.py: registration, and dispatch through the
-- middleware to the handler. Handlers and middleware are any functions of the request and a state.
pub mod Chain
use mathlib.Core.List.{foldl}
use mathlib.Core.Option
use route_mq.Prelude.{
  ℕ, zero, suc, ◌+◌, Bool, true, false, not, ◌&&◌, Option, none, some, List, [], ◌∷◌, ◌++◌, reverse,
  max, leb, ◌==◌, if◌then◌else◌,
}
use route_mq.Router.Pattern.{
  Topic, Token, Groups, tokens, match_tokens, subscription_topic, compiles,
}

-- How a coroutine ends.
pub data Reply (V E : Type 0) : Type 0 where
  returns : V → Reply V E
  raises : E → Reply V E
  no_route : Topic → Reply V E

-- The lifecycle records that `dispatch` writes. A route is named by its topic.
pub data Event (E : Type 0) : Type 0 where
  started succeeded : Topic → Event E
  failed : Topic → Reply (Unit {0}) E → Event E
  missed : Event E

-- What a handler sees and changes: its own state, the observability context, and the log.
pub record World (C S E : Type 0) : Type 0 where
  pub state : S
  pub context : C
  pub log : List (Event E)

-- The dict that `dispatch` hands to the chain.
pub record Request (P : Type 0) : Type 0 where
  pub topic : Topic
  pub payload : P
  pub params : Groups
  pub route_pattern : Topic

-- The attributes of a route that `dispatch` merges into the context.
pub record RouteAttributes : Type 0 where
  pub route_pattern : Topic
  pub mqtt_subscription_topic : Topic
  pub route_shared : Bool

-- P, V, E, C and S are the payloads, results, exceptions, observability contexts and states.
module _ (P V E C S : Type 0) where
  abbrev pub Handler : Type 0
  Handler = Request P → World C S E → Reply V E × World C S E

  -- `middleware.handle(ctx, next_handler)`
  abbrev pub Middleware : Type 0
  Middleware = Request P → Handler → World C S E → Reply V E × World C S E

  pub record Route : Type 0 where
    pub topic : Topic
    pub handler : Handler
    pub qos : ℕ
    pub middleware : List Middleware
    pub shared : Bool
    pub worker_count : ℕ

  -- `Route.__init__`; `none` for a pattern that does not compile or is not modelled.
  unfoldable pub route : Topic → Handler → ℕ → List Middleware → Bool → ℕ → Option Route
  route topic handler qos middleware shared workers =
      if compiles (tokens topic)
      then some (record {
        topic = topic;
        handler = handler;
        qos = qos;
        middleware = middleware;
        shared = shared;
        worker_count = if shared then workers else 1;
      })
      else none

  -- `Router.on`
  unfoldable pub on :
      Topic → Handler → ℕ → List Middleware → Bool → ℕ → List Route → Option (List Route)
  unfolding route
  on topic handler qos middleware shared workers routes =
      Option.map (λ r. routes ++ r ∷ []) (route topic handler qos middleware shared workers)

  pub record RouterGroup : Type 0 where
    pub prefix : Topic
    pub middleware : List Middleware

  abbrev prefixed : Topic → Topic → Topic
  prefixed [] topic = topic
  prefixed (c ∷ cs) topic = (c ∷ cs) ++ b'/' ∷ topic

  -- `RouterGroup.on`
  unfoldable pub group_on :
      RouterGroup
      → Topic
      → Handler
      → ℕ
      → List Middleware
      → Bool
      → ℕ
      → List Route
      → Option (List Route)
  unfolding on
  group_on g topic handler qos middleware shared workers =
      on (prefixed g.prefix topic) handler qos (g.middleware ++ middleware) shared workers

  -- `wrap_middleware`
  abbrev pub wrap_middleware : Middleware → Handler → Handler
  wrap_middleware m next request = m request next

  -- `for middleware in reversed(route.middleware): handler = wrap_middleware(middleware, handler)`
  unfoldable pub chain : List Middleware → Handler → Handler
  chain middleware handler = foldl (λ h m. wrap_middleware m h) handler (reverse middleware)

  abbrev pub append_event : Event E → World C S E → World C S E
  append_event e w = record w { log = w.log ++ e ∷ [] }

  abbrev pub outcome_event : Topic → Reply V E → Event E
  outcome_event topic (returns v) = succeeded topic
  outcome_event topic (raises e) = failed topic (raises e)
  outcome_event topic (no_route t) = failed topic (no_route t)

  abbrev pub route_attributes : Route → RouteAttributes
  route_attributes r = record {
    route_pattern = r.topic;
    mqtt_subscription_topic = subscription_topic (tokens r.topic);
    route_shared = r.shared;
  }

  -- The try block of `dispatch`. `enrich` merges the attributes of a route into the context, and
  -- `reset_context` restores the context that was there before.
  unfoldable pub run_route :
      (RouteAttributes → C → C) → Route → Request P → World C S E → Reply V E × World C S E
  unfolding chain
  run_route enrich r request w =
      let entered =
        append_event (started r.topic)
          (record w { context = enrich (route_attributes r) w.context }) in
      let (reply, w') = chain r.middleware r.handler request entered in
      (reply, record (append_event (outcome_event r.topic reply) w') { context = w.context })

  unfoldable pub dispatch :
      (RouteAttributes → C → C) → List Route → Topic → P → World C S E → Reply V E × World C S E
  unfolding run_route
  dispatch enrich [] topic payload w = (no_route topic, append_event missed w)
  dispatch enrich (r ∷ rs) topic payload w = elim (match_tokens (tokens r.topic) topic) [
    | none ↦ dispatch enrich rs topic payload w
    | some params ↦
        run_route enrich r
          (record { topic = topic; payload = payload; params = params; route_pattern = r.topic }) w
  ]

  -- `max(..., default=0)` over the shared routes.
  unfoldable pub get_total_workers_needed : List Route → ℕ
  get_total_workers_needed [] = 0
  get_total_workers_needed (r ∷ rs) =
      if r.shared
      then max r.worker_count (get_total_workers_needed rs)
      else get_total_workers_needed rs
