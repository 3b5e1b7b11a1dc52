-- ===== src/Examples/Routes.antt =====
-- Runs of routemq/router.py.
use route_mq.Prelude.{
  ℕ, ◌+◌, ◌≡◌, refl, Bool, true, false, none, some, map, List, [], ◌∷◌, ◌++◌, arith, if◌then◌else◌,
}
use route_mq.Text.{codes}
use route_mq.Router.Pattern.{
  Topic, Token, char, param, Groups, scan, tokens, compiles, match_tokens, subscription_topic,
}
use route_mq.Router.Pattern.Language.{Matches, match_tokens-Matches}
use route_mq.Router.Pattern.Filling.{fill, named, match_tokens-fill}
use route_mq.Router.Pattern.Subscription.{
  delivers, last_level, match_tokens-delivers, empty_level-unmatched,
}
use route_mq.Router.Dispatch.{returns, World, Handler, Middleware, Route, RouteAttributes, dispatch}
use route_mq.Router.Dispatch.Chain.{dispatch_lem, Dispatched}

abbrev status_tokens : List Token
status_tokens = map char (codes "devices/") ++ param (codes "id") ∷ map char (codes "/status")

scanned :
    (tokens (codes "devices/{id}/status") ≡ status_tokens)
    × (subscription_topic status_tokens ≡ codes "devices/+/status")
    × (compiles status_tokens ≡ true)
unfolding scan subscription_topic compiles
scanned = (refl, refl, refl)

-- Two parameters in one level are read as one, whose name is no identifier; an empty pair of braces
-- is no parameter.
greedy_braces :
    (tokens (codes "{a}-{b}") ≡ param (codes "a}-{b") ∷ [])
    × (compiles (param (codes "a}-{b") ∷ []) ≡ false)
    × (tokens (codes "{}") ≡ char b'{' ∷ char b'}' ∷ [])
unfolding scan compiles
greedy_braces = (refl, refl, refl)

matched_status :
    (match_tokens status_tokens (codes "devices/42/status") ≡ some ((codes "id", codes "42") ∷ []))
    × (match_tokens status_tokens (codes "devices//status") ≡ none)
    × (match_tokens status_tokens (codes "devices/4/2/status") ≡ none)
unfolding match_tokens
matched_status = (refl, refl, refl)

match_tokens-Matches_example :
    ((g : Groups)
      → match_tokens status_tokens (codes "devices/42/status") ≡ some g
      → Matches status_tokens (codes "devices/42/status") g)
    × (match_tokens status_tokens (codes "devices/42/status") ≡ none
        → (g : Groups) → ¬ Matches status_tokens (codes "devices/42/status") g)
match_tokens-Matches_example = match_tokens-Matches status_tokens (codes "devices/42/status")

match_tokens-fill_example :
    match_tokens status_tokens (fill status_tokens (codes "42" ∷ []))
    ≡ some (named status_tokens (codes "42" ∷ []))
match_tokens-fill_example =
    match_tokens-fill status_tokens (codes "42" ∷ []) (omega arith) (omega arith)

match_tokens-delivers_example :
    delivers (subscription_topic status_tokens) (codes "devices/42/status") ≡ true
unfolding match_tokens
match_tokens-delivers_example =
    match_tokens-delivers status_tokens (codes "devices/42/status") ((codes "id", codes "42") ∷ [])
      (refl, tt) (omega arith) (omega arith) (omega arith) refl refl

-- A dollar sign at the start is not taken by a wildcard, and a plus that is no whole level is no
-- filter.
refused :
    (delivers (codes "+/y") (codes "$SYS/y") ≡ false)
    × (delivers (codes "sensor-+") (codes "sensor-1") ≡ false)
    × (delivers (codes "+/y") (codes "x/y") ≡ true)
    × (delivers (codes "a/+/b") (codes "a//b") ≡ true)
refused = (refl, refl, refl, refl)

empty_level-unmatched_example :
    (delivers (subscription_topic (last_level (codes "devices") (codes "id"))) (codes "devices/")
      ≡ true)
    × (match_tokens (last_level (codes "devices") (codes "id")) (codes "devices/") ≡ none)
empty_level-unmatched_example = empty_level-unmatched (codes "devices") (codes "id") (omega arith)

-- The state is a list of marks, the context a number.
abbrev Mark : Type 0
Mark = Middleware ℕ ℕ ℕ ℕ (List ℕ)

abbrev mark : ℕ → Mark
mark n request next w = next request (record w { state = w.state ++ n ∷ [] })

abbrev answer : ℕ → Handler ℕ ℕ ℕ ℕ (List ℕ)
answer n request w = (returns n, record w { state = w.state ++ request.payload ∷ [] })

abbrev route_of : Topic → ℕ → List Mark → Bool → ℕ → Route ℕ ℕ ℕ ℕ (List ℕ)
route_of topic n marks shared workers = record {
  topic = topic;
  handler = answer n;
  qos = 0;
  middleware = marks;
  shared = shared;
  worker_count = workers;
}

abbrev routes : List (Route ℕ ℕ ℕ ℕ (List ℕ))
routes =
    route_of (codes "alarms") 1 [] true 2
    ∷ route_of (codes "devices/{id}") 2 (mark 10 ∷ mark 20 ∷ []) false 1
    ∷ route_of (codes "devices/{name}") 3 [] true 3
    ∷ []

abbrev idle : World ℕ (List ℕ) ℕ
idle = record { state = []; context = 7; log = [] }

abbrev enrich : RouteAttributes → ℕ → ℕ
enrich attributes c = if attributes.route_shared then c + 2 else c + 1

-- The first route that matches answers; its middleware runs in order, and the context is restored.
dispatched :
    let out = dispatch ℕ ℕ ℕ ℕ (List ℕ) enrich routes (codes "devices/42") 5 idle in
    (out.0 ≡ returns 2) × (out.1.state ≡ 10 ∷ 20 ∷ 5 ∷ []) × (out.1.context ≡ 7)
unfolding dispatch scan match_tokens
dispatched = (refl, refl, refl)

dispatch_lem_example :
    Dispatched ℕ ℕ ℕ ℕ
      (List ℕ)
      enrich
      (codes "devices/42")
      5
      idle
      routes
      (dispatch ℕ ℕ ℕ ℕ (List ℕ) enrich routes (codes "devices/42") 5 idle)
dispatch_lem_example = dispatch_lem ℕ ℕ ℕ ℕ (List ℕ) enrich (codes "devices/42") 5 idle routes
