-- ===== src/Server/Serving/World.antt =====
-- Any number of requests in flight together, and the store of a runtime with which they begin.
use go_mini_gateway.Common.{
  Text, Option, none, some, List, [], ◌∷◌, ◌++◌, ◌⊎◌, ◌≡◌, text_eq, codes, if◌then◌else◌,
}
use go_mini_gateway.Http.{Reply}
use go_mini_gateway.Concurrency.Limiter.{Limiter}
use go_mini_gateway.RateLimit.TokenBucket.{TokenBucket}
use go_mini_gateway.Metrics.Registry.{Registry}
use go_mini_gateway.Proxy.Upstream
use go_mini_gateway.Proxy.Handler.{Request}
use go_mini_gateway.Server.Recorder.{new_status_recorder}
use go_mini_gateway.Server.Routes.{Handler, Mux, RouteRuntime}
use go_mini_gateway.Server.Runtime.{MainHandler, RuntimeBundle}
use go_mini_gateway.Server.Serving.{Store, InFlight, Outside, at_main, back, advance}

module _ (dispatch : Mux → Request → Reply ⊎ Handler) where
  pub record World : Type 0 where
    pub store : Store
    pub requests : List InFlight

  abbrev pub arrived : MainHandler → Request → InFlight
  arrived handler r = record {
    request = r;
    recorder = new_status_recorder;
    position = at_main handler;
    frames = [];
  }

  pub data Step (handler : MainHandler) (w : World) : World → Type 0 where
    arrives :
        (r : Request) → Step handler w (record w { requests = arrived handler r ∷ w.requests })
    moves :
        (before after : List InFlight) (q : InFlight) (o : Outside)
        → w.requests ≡ (before ++ q ∷ after)
        → Step handler w (record {
          store = (advance dispatch w.store q o).0;
          requests = before ++ (advance dispatch w.store q o).1 ∷ after;
        })
    leaves :
        (before after : List InFlight) (q : InFlight) (r : Reply)
        → w.requests ≡ (before ++ q ∷ after)
        → q.position ≡ back r
        → q.frames ≡ []
        → Step handler w (record w { requests = before ++ after })

  pub data Reach (handler : MainHandler) (w : World) : World → Type 0 where
    begun : Reach handler w w
    later : {u v : World} → Reach handler w u → Step handler u v → Reach handler w v

-- The route that has this name for its limits, or this id.
unfoldable pub route_limiter : List RouteRuntime → Text → Option Limiter
unfolding text_eq
route_limiter [] name = none
route_limiter (r ∷ routes) name =
    let rest = route_limiter routes name in
    if text_eq name (codes "route:" ++ r.id) then r.concurrency_limiter else rest

unfoldable pub route_bucket : List RouteRuntime → Text → Option TokenBucket
unfolding text_eq
route_bucket [] name = none
route_bucket (r ∷ routes) name =
    let rest = route_bucket routes name in
    if text_eq name (codes "route:" ++ r.id) then r.rate_limiter else rest

unfoldable pub route_proxy : List RouteRuntime → Text → Option Upstream.Handler
unfolding text_eq
route_proxy [] id = none
route_proxy (r ∷ routes) id =
    let rest = route_proxy routes id in if text_eq id r.id then some r.proxy_handler else rest

-- The objects of a runtime.
unfoldable pub store_of : RuntimeBundle → Option Registry → Store
unfolding route_limiter route_bucket route_proxy text_eq
store_of b registry = record {
  limiters = λ name.
      if text_eq name (codes "global")
      then b.global_concurrency_limiter
      else route_limiter b.routes name;
  buckets = λ name.
      if text_eq name (codes "global") then b.global_rate_limiter else route_bucket b.routes name;
  proxies = route_proxy b.routes;
  registry = registry;
}
