-- ===== src/Server/Serving/Fresh.antt =====
-- The limiters and proxies of a runtime that was just built.
use mathlib.Core.Path.{subst}
use go_mini_gateway.Common.{
  length, ◌<◌, ◌≡◌, inl, inr, refl, sym, ◌∙◌, ℤ, pos, leb_ℤ, Text, Bool, Option, none, some, List,
  [], ◌∷◌, ◌++◌, All, arith, Bool-cases,
}
use go_mini_gateway.Url.{Url}
use go_mini_gateway.Config.Types.{Config, RouteConfig}
use go_mini_gateway.Config.Durations.{request_timeout_duration}
use go_mini_gateway.Concurrency.Limiter.{Limiter, new_limiter}
use go_mini_gateway.RateLimit.TokenBucket.{new_token_bucket}
use go_mini_gateway.Proxy.Upstream
use go_mini_gateway.Proxy.Build
use go_mini_gateway.Proxy.Build.Laws.{IsUsable, new-IsUsable}
use go_mini_gateway.Server.Options.{
  to_proxy_upstream_options, to_proxy_active_health_options, to_proxy_passive_health_options,
  to_proxy_circuit_breaker_options,
}
use go_mini_gateway.Server.Outcome.{done, first_done, bind_done, of_done, given, lift_done}
use go_mini_gateway.Server.Routes.{
  Handler, Mux, RouteRuntime, RegisterResult, RuntimeError, limit_name, new_route_runtime,
  apply_route_concurrency_limit, made, apply_route_rate_limit, new_proxy_handler, register_route,
  register_route_patterns, register_from, register_routes, register_system_routes,
}
use go_mini_gateway.Server.Runtime.{
  MainHandler, RuntimeBundle, limit_global_concurrency, limit_global_rate, build_runtime,
}

-- No place is taken.
abbrev pub IsFresh : Option Limiter → Type 0
IsFresh none = Unit
IsFresh (some l) = l.semaphore ≡ 0

new_limiter-IsFresh : (name : Text) (n : ℤ) → IsFresh (new_limiter name n)
unfolding new_limiter
new_limiter-IsFresh name n = ground arith

-- The proxy of the route can be selected from.
abbrev pub IsReady : Upstream.Handler → Type 0
IsReady h = (0 < length h.upstreams) × All IsUsable h.upstreams

abbrev pub IsNew : RouteRuntime → Type 0
IsNew r = IsFresh r.concurrency_limiter × IsReady r.proxy_handler

unfoldable pub AreFresh : List RouteRuntime → Type 0
AreFresh routes = All IsNew routes

AreFresh-append :
    (routes : List RouteRuntime) (r : RouteRuntime)
    → AreFresh routes
    → IsNew r
    → AreFresh (routes ++ r ∷ [])
unfolding AreFresh
AreFresh-append [] r h f = (f, tt)
AreFresh-append (x ∷ routes) r (hx, h) f = (hx, AreFresh-append routes r h f)

apply_route_concurrency_limit-IsFresh :
    (next : Handler) (route : RouteConfig) (proxy : Upstream.Handler)
    → IsFresh
        (apply_route_concurrency_limit next route
          (new_route_runtime route proxy)).1.concurrency_limiter
unfolding apply_route_concurrency_limit new_route_runtime
apply_route_concurrency_limit-IsFresh next route proxy =
    elim (Bool-cases (leb_ℤ route.max_concurrency (pos 0))) [
      | inl off ↦ rw off tt
      | inr on ↦ rw on refl
    ]

apply_route_concurrency_limit-proxy_handler :
    (next : Handler) (route : RouteConfig) (proxy : Upstream.Handler)
    → (apply_route_concurrency_limit next route (new_route_runtime route proxy)).1.proxy_handler
      ≡ proxy
unfolding apply_route_concurrency_limit new_route_runtime
apply_route_concurrency_limit-proxy_handler next route proxy = ground arith

apply_route_rate_limit_keeps :
    (next handler : Handler) (route : RouteConfig) (r r' : RouteRuntime)
    (result result' : RegisterResult)
    → apply_route_rate_limit next route r result ≡ done (handler, r', result')
    → (r'.concurrency_limiter ≡ r.concurrency_limiter)
      × (r'.proxy_handler ≡ r.proxy_handler)
      × (result'.routes ≡ result.routes)
unfolding apply_route_rate_limit
apply_route_rate_limit_keeps next handler route r r' result result' h =
    elim (Bool-cases (leb_ℤ route.rate_limit_rps (pos 0))) [
      | inl off ↦ let h' = rw off at h in (cc, cc, cc)
      | inr on ↦
          let h' = rw on at h in
          let (limiter, _, h'') =
            first_done _
              (made
                (new_token_bucket (limit_name route) route.rate_limit_rps route.rate_limit_burst))
              h' in
          (cc, cc, cc)
    ]

limit_global_concurrency-IsFresh :
    (n : ℤ) (handler : MainHandler) → IsFresh (limit_global_concurrency n handler).1
unfolding limit_global_concurrency new_limiter
limit_global_concurrency-IsFresh n handler = ground arith

abbrev FreshRoutes : Mux × RegisterResult → Type 0
FreshRoutes next = AreFresh next.1.routes

abbrev FreshBundle : RuntimeBundle → Type 0
FreshBundle b = AreFresh b.routes × IsFresh b.global_concurrency_limiter

module _ (accepts : List Text → Text → Bool) (parse_url : Text → Option Url)
    (parse_duration : Text → Option ℤ) where
  new_proxy_handler-IsReady :
      (route : RouteConfig) (h : Upstream.Handler)
      → new_proxy_handler parse_url parse_duration route ≡ done h
      → IsReady h
  unfolding new_proxy_handler
  new_proxy_handler-IsReady route =
      bind_done IsReady
        (given (RuntimeError.active_health_failed route.id)
          (to_proxy_active_health_options parse_duration route.health_check))
        _
        λ active _.
          bind_done IsReady
            (given (RuntimeError.passive_health_failed route.id)
              (to_proxy_passive_health_options parse_duration route.passive_health))
            _
            λ passive _.
              bind_done IsReady
                (given (RuntimeError.circuit_breaker_failed route.id)
                  (to_proxy_circuit_breaker_options parse_duration route.circuit_breaker))
                _
                λ breaker _ h e.
                  let options : Build.Options = record {
                    route_id = route.id;
                    target = route.target;
                    upstreams = to_proxy_upstream_options route.upstreams;
                    strip_prefix = route.strip_prefix;
                    active_health = active;
                    passive_health = passive;
                    circuit_breaker = breaker;
                  } in
                  let (some_left, _, usable, _) = new-IsUsable parse_url options h (
                    lift_done (RuntimeError.proxy_failed route.id) (Build.new parse_url options)
                      e) in
                  (some_left, usable)

  register_route-AreFresh :
      (state : Mux × RegisterResult) (route : RouteConfig)
      → AreFresh state.1.routes
      → (next : Mux × RegisterResult)
      → register_route accepts parse_url parse_duration state route ≡ done next
      → AreFresh next.1.routes
  unfolding register_route
  register_route-AreFresh (mux, result) route h =
      bind_done FreshRoutes (new_proxy_handler parse_url parse_duration route) _ λ proxy made_.
        let limited =
          apply_route_concurrency_limit (Handler.proxy proxy) route
            (new_route_runtime route proxy) in
        bind_done FreshRoutes (apply_route_rate_limit limited.0 route limited.1 result) _
          λ (handler, r', result') e.
            bind_done FreshRoutes
              (register_route_patterns accepts mux route.prefix
                (Handler.with_route_id route.id handler))
              _
              λ mux' _.
                let (same, same_proxy, routes) =
                  apply_route_rate_limit_keeps limited.0 handler route limited.1 r' result result'
                    e in
                of_done FreshRoutes (
                  AreFresh-append result'.routes r' (subst AreFresh (sym routes) h) (
                    subst IsFresh (sym same)
                        (apply_route_concurrency_limit-IsFresh (Handler.proxy proxy) route proxy),
                    subst IsReady
                        (sym (
                          same_proxy
                          ∙ apply_route_concurrency_limit-proxy_handler (Handler.proxy proxy) route
                              proxy))
                        (new_proxy_handler-IsReady route proxy made_),
                  ))

  register_from-AreFresh :
      (routes : List RouteConfig) (state : Mux × RegisterResult)
      → AreFresh state.1.routes
      → (last : Mux × RegisterResult)
      → register_from accepts parse_url parse_duration state routes ≡ done last
      → AreFresh last.1.routes
  unfolding register_from
  register_from-AreFresh [] state h = of_done FreshRoutes h
  register_from-AreFresh (route ∷ routes) state h =
      bind_done FreshRoutes (register_route accepts parse_url parse_duration state route) _
        λ next e. register_from-AreFresh routes next (register_route-AreFresh state route h next e)

  pub build_runtime-AreFresh :
      (c : Config) (b : RuntimeBundle)
      → build_runtime accepts parse_url parse_duration c ≡ done b
      → AreFresh b.routes × IsFresh b.global_concurrency_limiter
  unfolding build_runtime register_routes AreFresh
  build_runtime-AreFresh c =
      bind_done FreshBundle
        (given RuntimeError.invalid_request_timeout (request_timeout_duration parse_duration c)) _
        λ timeout _. bind_done FreshBundle (register_system_routes accepts []) _ λ mux _.
          bind_done FreshBundle (register_routes accepts parse_url parse_duration mux c.routes) _
            λ (mux', result) registered.
              let limited =
                limit_global_concurrency c.server.max_concurrency
                  (MainHandler.with_timeout timeout (MainHandler.serve_mux mux')) in
              bind_done FreshBundle
                (limit_global_rate c.server.rate_limit_rps c.server.rate_limit_burst limited.0
                  result.rate_limiters)
                _
                λ (handler, buckets, bucket) _. of_done FreshBundle (
                  register_from-AreFresh c.routes _ tt (mux', result) registered,
                  limit_global_concurrency-IsFresh c.server.max_concurrency _,
                )
