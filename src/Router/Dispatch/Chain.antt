-- ===== src/Router/Dispatch/Chain.antt =====
-- What `dispatch` runs, in which order, and what it leaves behind.
use mathlib.Core.List.{foldl-append, reverse-cons}
use route_mq.Prelude.{
  ℕ, ◌≤◌, ◌≡◌, refl, sym, ap, subst, ◌↔◌, Bool, true, false, Option, none, some, List, [], ◌∷◌,
  ◌++◌, max, arith, All, Option-cases, ◌⊎◌, inl, inr, if◌then◌else◌,
}
use route_mq.Router.Pattern.{Topic, Groups, tokens, match_tokens}
use route_mq.Router.Dispatch.{
  Reply, no_route, started, missed, World, Request, Handler, Middleware, Route, RouteAttributes,
  route_attributes, wrap_middleware, chain, outcome_event, run_route, dispatch,
  get_total_workers_needed,
}

enough-cons :
    (n count total : ℕ) (shared : Bool)
    → ((if shared then max count total else total) ≤ n)
      ↔ ((shared ≡ true → count ≤ n) × (total ≤ n))
enough-cons n count total true =
    (λ h. (λ e. omega arith, omega arith), λ h. let each = h.0 refl in omega arith)
enough-cons n count total false = (λ h. (λ e. cc, h), λ h. h.1)

module _ (P V E C S : Type 0) where
  -- The handler inside the middleware, the first of it outermost.
  abbrev pub nest : List (Middleware P V E C S) → Handler P V E C S → Handler P V E C S
  nest [] h = h
  nest (m ∷ ms) h = λ request w. m request (nest ms h) w

  chain-nest :
      (ms : List (Middleware P V E C S)) (h : Handler P V E C S) → chain P V E C S ms h ≡ nest ms h
  unfolding chain
  chain-nest [] h = refl
  chain-nest (m ∷ ms) h =
      rw (reverse-cons m ms, foldl-append) (ap (wrap_middleware P V E C S m) (chain-nest ms h))

  abbrev pub matched : Topic → Route P V E C S → Option Groups
  matched topic r = match_tokens (tokens r.topic) topic

  abbrev pub request_for : Route P V E C S → Topic → P → Groups → Request P
  request_for r topic payload params = record {
    topic = topic;
    payload = payload;
    params = params;
    route_pattern = r.topic;
  }

  -- What is left when the chain of a route has ended in a reply and a world.
  abbrev pub Leaves :
      Route P V E C S → World C S E → Reply V E × World C S E → Reply V E × World C S E → Type 0
  Leaves r w inner out =
      (out.0 ≡ inner.0)
      × (out.1.state ≡ inner.1.state)
      × (out.1.log ≡ inner.1.log ++ outcome_event P V E C S r.topic inner.0 ∷ [])
      × (out.1.context ≡ w.context)

  module _ (enrich : RouteAttributes → C → C) (topic : Topic) (payload : P) (w : World C S E) where
    -- The world in which the chain of a route starts.
    abbrev pub entered : Route P V E C S → World C S E
    entered r = record w {
      context = enrich (route_attributes P V E C S r) w.context;
      log = w.log ++ started r.topic ∷ [];
    }

    abbrev pub Dispatched : List (Route P V E C S) → Reply V E × World C S E → Type 0
    Dispatched routes out =
        (All (λ r. matched topic r ≡ none) routes
          × (out ≡ (no_route topic, record w { log = w.log ++ missed ∷ [] })))
        ⊎ ((before : List (Route P V E C S)) × (r : Route P V E C S) × (after : List
              (Route P V E C S))
            × (params : Groups) × (routes ≡ before ++ r ∷ after)
            × All (λ x. matched topic x ≡ none) before
            × (matched topic r ≡ some params)
            × Leaves r w
                (nest r.middleware r.handler (request_for r topic payload params) (entered r)) out)

    run_route-Leaves :
        (r : Route P V E C S) (params : Groups)
        → Leaves r w
            (nest r.middleware r.handler (request_for r topic payload params) (entered r))
            (run_route P V E C S enrich r (request_for r topic payload params) w)
    unfolding run_route
    run_route-Leaves r params = rw (chain-nest r.middleware r.handler) (refl, refl, refl, refl)

    past :
        (r : Route P V E C S) (rs : List (Route P V E C S)) (out : Reply V E × World C S E)
        → matched topic r ≡ none
        → Dispatched rs out
        → Dispatched (r ∷ rs) out
    past r rs out e (inl (h, k)) = inl ((e, h), k)
    past r rs out e (inr (before, x, after, params, eq, h, m, l)) =
        inr (r ∷ before, x, after, params, ap (◌∷◌ r) eq, (e, h), m, l)

    -- A message is dispatched in one of two ways. If no route matches its topic, ValueError is
    -- raised and one record, of the miss, is added to the log. Otherwise the first route that
    -- matches runs, in the context enriched by its attributes and after a record of the start: its
    -- middleware, the first outermost, around its handler, with the parameters of the match. Reply,
    -- exception or value, and state are the ones of this chain; a record of success or failure is
    -- added to its log; and the context is again the one before the call, whatever the chain did.
    pub dispatch_lem :
        (routes : List (Route P V E C S))
        → Dispatched routes (dispatch P V E C S enrich routes topic payload w)
    unfolding dispatch
    dispatch_lem [] = inl (tt, refl)
    dispatch_lem (r ∷ rs) = elim (Option-cases (matched topic r)) [
      | inl e ↦
          let next : dispatch P V E C S enrich (r ∷ rs) topic payload w
              ≡ dispatch P V E C S enrich rs topic payload w =
            rw (e, dispatch) in
          subst (Dispatched (r ∷ rs)) (sym next) (past r rs _ e (dispatch_lem rs))
      | inr (params, e) ↦
          let here : dispatch P V E C S enrich (r ∷ rs) topic payload w
              ≡ run_route P V E C S enrich r (request_for r topic payload params) w =
            rw (e, dispatch) in
          subst (Dispatched (r ∷ rs)) (sym here)
            (inr ([], r, rs, params, refl, tt, e, run_route-Leaves r params))
    ]

  -- The number of workers needed is the least that reaches the worker count of every shared route:
  -- a number is at least as great exactly when it reaches each of them.
  pub get_total_workers_needed-le :
      (n : ℕ) (routes : List (Route P V E C S))
      → (get_total_workers_needed P V E C S routes ≤ n)
        ↔ All (λ r. r.shared ≡ true → r.worker_count ≤ n) routes
  unfolding get_total_workers_needed
  get_total_workers_needed-le n [] = (λ h. tt, λ h. omega arith)
  get_total_workers_needed-le n (r ∷ rs) =
      let (to, back) = get_total_workers_needed-le n rs in
      let (split, join) =
        enough-cons n r.worker_count (get_total_workers_needed P V E C S rs) r.shared in
      (λ h. ((split h).0, to (split h).1), λ h. join (h.0, back h.1))
