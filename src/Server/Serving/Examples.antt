-- ===== src/Server/Serving/Examples.antt =====
-- The theorems on serving at one request through the runtime of one route, with room for one request in the
-- process.
use mathlib.Core.List.{Memᴰ}
use go_mini_gateway.Common.{
  ℕ, ◌≤◌, ◌<◌, ◌≡◌, ◌⊎◌, inl, inr, refl, pos, second, false, none, some, [], ◌∷◌, codes, length,
  get_elem?, text_eq, trim_space,
}
use go_mini_gateway.Config.Types.{Config}
use go_mini_gateway.Config.Validate.{contains}
use go_mini_gateway.Http.{Reply, panicked}
use go_mini_gateway.Concurrency.Limiter
use go_mini_gateway.Concurrency.Limiter.{Limiter, new_limiter}
use go_mini_gateway.Health.Checker
use go_mini_gateway.Proxy.Passive.{new_passive_health_state}
use go_mini_gateway.Proxy.Breaker.{new_circuit_breaker_state}
use go_mini_gateway.Proxy.Upstream
use go_mini_gateway.Proxy.Upstream.{Upstream, select_upstream}
use go_mini_gateway.Proxy.Build.Laws.{IsUsable}
use go_mini_gateway.Proxy.Handler.{finish, Request, responded}
use go_mini_gateway.Server.Outcome.{done}
use go_mini_gateway.Server.Routes.{Handler, Mux}
use go_mini_gateway.Server.Runtime.{MainHandler, RuntimeBundle, build_runtime}
use go_mini_gateway.Server.Serving.{
  record_access, Store, InFlight, Outside, at_upstream, back, advance,
}
use go_mini_gateway.Server.Serving.World.{
  World, Reach, begun, later, arrives, moves, arrived, store_of,
}
use go_mini_gateway.Server.Serving.Places.{held, places}
use go_mini_gateway.Server.Serving.Ends.{IsDispatch, steps_left, request_ends}
use go_mini_gateway.Server.Serving.Built.{places_lem, upstreams_lem}
use go_mini_gateway.Server.Sample.{
  parse_url, parse_duration, accepts, config, bundle, upstreams, mux_of_route,
}

abbrev one_place : Config
one_place = record config { server = record (config.server) { max_concurrency = pos 1 } }

abbrev limiter : Limiter
limiter = record { name = codes "global"; capacity = 1; semaphore = 0 }

abbrev runtime : RuntimeBundle
runtime = record bundle {
  handler = MainHandler.access_log (
      MainHandler.limit_concurrency (codes "global") (some limiter)
        (MainHandler.with_timeout (pos second) (MainHandler.serve_mux mux_of_route)));
  global_concurrency_limiter = some limiter;
}

built_test : build_runtime accepts parse_url parse_duration one_place ≡ done runtime
unfolding build_runtime contains text_eq trim_space new_passive_health_state
    new_circuit_breaker_state new_limiter
built_test = refl

-- A mux that hands every request to the handler registered last.
abbrev dispatch : Mux → Request → Reply ⊎ Handler
dispatch [] r = inl panicked
dispatch ((p, h) ∷ mux) r = inr h

dispatch-IsDispatch : IsDispatch dispatch
unfolding IsDispatch
dispatch-IsDispatch [] r h e = cc
dispatch-IsDispatch ((p, g) ∷ mux) r h e = (p, Memᴰ.head (cc (e)))

abbrev request : Request
request = record { method = codes "GET"; path = codes "/a/x"; trace_id = [] }

abbrev outside : Outside
outside = record {
  clock = λ i. 5;
  early = [];
  answer = responded (record { status = 200; headers = []; body = codes "ok" });
  now = 7;
  aborts = false;
  taken = 2;
  cost = pos 2;
}

abbrev start : Store × InFlight
start = (store_of runtime none, arrived dispatch runtime.handler request)

abbrev moved : Store × InFlight → Store × InFlight
moved (s, q) = advance dispatch s q outside

abbrev world : Store × InFlight → World dispatch
world (s, q) = record { store = s; requests = q ∷ [] }

abbrev empty_world : World dispatch
empty_world = record { store = store_of runtime none; requests = [] }

abbrev Reached : Store × InFlight → Type 0
Reached p = Reach dispatch runtime.handler empty_world (world p)

started : Reached start
started = later begun (arrives request)

onward : (p : Store × InFlight) → Reached p → Reached (moved p)
onward (s, q) r = later r (moves [] [] q outside refl)

-- Through the access log, the limiter, the deadline, the mux, the route id and the selection.
abbrev selected : Store × InFlight
selected = moved (moved (moved (moved (moved (moved start)))))

reached : Reached selected
reached = onward _ (onward _ (onward _ (onward _ (onward _ (onward _ started)))))

selected_test :
    (selected.1.position ≡ at_upstream (codes "a") 0)
    × (places dispatch (codes "global") (selected.1 ∷ []) ≡ 1)
unfolding advance places held store_of text_eq Limiter.try_acquire select_upstream
    Upstream.try_acquire Upstream.select_from Upstream.index_of Checker.available
selected_test = (refl, refl)

places_lem_example :
    (selected.0.limiters (codes "global")
      ≡ some (record limiter { semaphore = places dispatch (codes "global") (selected.1 ∷ []) }))
    × (places dispatch (codes "global") (selected.1 ∷ []) ≤ 1)
unfolding store_of text_eq
places_lem_example =
    places_lem accepts parse_url parse_duration dispatch one_place runtime none (world selected)
      (codes "global") limiter built_test reached refl

upstreams_lem_example :
    ((g : Upstream.Handler) × (selected.0.proxies (codes "a") ≡ some g)
      × (length g.upstreams ≡ 1)
      × ((j : ℕ) (v : Upstream)
          → get_elem? g.upstreams j ≡ some v
          → (u : Upstream) × (get_elem? upstreams.upstreams j ≡ some u)
            × (v.id ≡ u.id)
            × (v.url ≡ u.url)
            × IsUsable v))
    × ((q : InFlight) (j : ℕ)
        → Memᴰ q (selected.1 ∷ [])
        → q.position ≡ at_upstream (codes "a") j
        → j < 1)
unfolding store_of text_eq
upstreams_lem_example =
    upstreams_lem accepts parse_url parse_duration dispatch one_place runtime none (world selected)
      (codes "a") upstreams built_test reached refl

request_ends_example :
    (steps_left (advance dispatch selected.0 selected.1 outside).1 < steps_left selected.1)
    ⊎ ((r : Reply) × (selected.1.position ≡ back r) × (selected.1.frames ≡ []))
request_ends_example = request_ends dispatch selected.0 selected.1 outside dispatch-IsDispatch

-- The answer has come, and the place was given back.
abbrev answered : Store × InFlight
answered = moved (moved selected)

answered_test : answered.1.frames ≡ record_access ∷ []
unfolding advance store_of text_eq Limiter.try_acquire Limiter.release select_upstream
    Upstream.try_acquire Upstream.select_from Upstream.index_of Checker.available finish
answered_test = refl

-- The handler of the route is reached.
abbrev routed : Store × InFlight
routed = moved (moved (moved (moved start)))
