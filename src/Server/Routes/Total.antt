-- ===== src/Server/Routes/Total.antt =====
-- The registration of valid routes returns no error.
use go_mini_gateway.Common.{
  ◌≡◌, ◌≢◌, inl, inr, refl, sym, ◌∙◌, ap, ℤ, pos, pos_part, some_of_ne_none, ◌≤ℤ◌, leb_ℤ, Text,
  Bool, true, Option, none, some, List, [], ◌∷◌, ◌++◌, All, Bool-cases, arith,
}
use go_mini_gateway.Url.{Url}
use go_mini_gateway.Config.Types.{
  RouteConfig, UpstreamConfig, HealthCheckConfig, PassiveHealthConfig, CircuitBreakerConfig,
}
use go_mini_gateway.Config.Durations.{
  interval_duration, timeout_duration, unhealthy_duration_duration, open_duration_duration,
}
use go_mini_gateway.Config.Validate.Spec.{
  IsUpstream, IsRoute, IsHealthCheck, IsPassiveHealth, IsCircuitBreaker, IsRateLimit,
}
use go_mini_gateway.RateLimit.TokenBucket.{TokenBucket, new_token_bucket}
use go_mini_gateway.RateLimit.TokenBucket.New.{full, new_token_bucket_lem}
use go_mini_gateway.Proxy.Passive.{PassiveHealthOptions}
use go_mini_gateway.Proxy.Breaker.{CircuitBreakerOptions}
use go_mini_gateway.Proxy.Upstream
use go_mini_gateway.Proxy.Build.{ActiveHealthOptions}
use go_mini_gateway.Proxy.Build.Total.{HasAddress, new_total}
use go_mini_gateway.Server.Outcome.{done}
use go_mini_gateway.Server.Options.{
  to_proxy_upstream_options, to_proxy_active_health_options, to_proxy_passive_health_options,
  to_proxy_circuit_breaker_options,
}
use go_mini_gateway.Server.Routes.{
  Handler, Mux, RouteRuntime, RegisterResult, limit_name, made, route_patterns,
  register_route_patterns, new_route_runtime, apply_route_concurrency_limit, apply_route_rate_limit,
  new_proxy_handler, register_route, register_from,
}
use go_mini_gateway.Server.Routes.Patterns.{
  IsLiteral, IsServeMux, patterns, all_route_patterns, accepted-append, behind, behind-append,
  All-behind, Registers, handle_all_lem, route_patterns-literal,
}

-- A rate up to 100000 makes no panic.
pub made_total :
    (name : Text) (rps burst : ℤ)
    → rps ≤ℤ pos 100000
    → (b : Option TokenBucket) × (made (new_token_bucket name rps burst) ≡ done b)
made_total name rps burst h = elim (new_token_bucket_lem name rps burst) [
  | inl (_, e) ↦ (none, rw e refl)
  | inr (inl (fast, _, _)) ↦ absurd (omega (arith, fast, h))
  | inr (inr (_, _, _, e)) ↦ (some (full name (pos_part rps) (pos_part burst)), rw e refl)
]

module _ (parse_duration : Text → Option ℤ) where
  active_total :
      (c : HealthCheckConfig)
      → (c.enabled ≡ true → IsHealthCheck parse_duration c)
      → (o : ActiveHealthOptions) × (to_proxy_active_health_options parse_duration c ≡ some o)
  unfolding to_proxy_active_health_options interval_duration timeout_duration
  active_total c h = elim (Bool-cases c.enabled) [
    | inl on ↦
        let v = h on in some_of_ne_none _ (λ q. ground (arith, on, v.interval_is, v.timeout_is))
    | inr off ↦ some_of_ne_none _ (λ q. ground (arith, off))
  ]

  passive_total :
      (c : PassiveHealthConfig)
      → (c.enabled ≡ true → IsPassiveHealth parse_duration c)
      → (o : PassiveHealthOptions) × (to_proxy_passive_health_options parse_duration c ≡ some o)
  unfolding to_proxy_passive_health_options unhealthy_duration_duration
  passive_total c h = elim (Bool-cases c.enabled) [
    | inl on ↦ let (d, e, _) = (h on).duration in some_of_ne_none _ (λ q. ground (arith, on, e))
    | inr off ↦ some_of_ne_none _ (λ q. ground (arith, off))
  ]

  breaker_total :
      (c : CircuitBreakerConfig)
      → (c.enabled ≡ true → IsCircuitBreaker parse_duration c)
      → (o : CircuitBreakerOptions) × (to_proxy_circuit_breaker_options parse_duration c ≡ some o)
  unfolding to_proxy_circuit_breaker_options open_duration_duration
  breaker_total c h = elim (Bool-cases c.enabled) [
    | inl on ↦ let (d, e, _) = (h on).duration in some_of_ne_none _ (λ q. ground (arith, on, e))
    | inr off ↦ some_of_ne_none _ (λ q. ground (arith, off))
  ]

module _ (parse_url : Text → Option Url) where
  addresses :
      (us : List UpstreamConfig)
      → All (IsUpstream parse_url) us
      → All (λ o. HasAddress parse_url o.url) (to_proxy_upstream_options us)
  unfolding to_proxy_upstream_options
  addresses [] a = tt
  addresses (u ∷ us) ((_, _, x), a) = (x, addresses us a)

  options-ne : (us : List UpstreamConfig) → us ≢ [] → to_proxy_upstream_options us ≢ []
  unfolding to_proxy_upstream_options
  options-ne [] n e = n refl
  options-ne (u ∷ us) n e = cc

  proxy_total :
      (parse_duration : Text → Option ℤ) (route : RouteConfig)
      → IsRoute parse_url parse_duration route
      → (h : Upstream.Handler) × (new_proxy_handler parse_url parse_duration route ≡ done h)
  unfolding new_proxy_handler
  proxy_total parse_duration route v =
      let (a, ea) = active_total parse_duration route.health_check v.health_check in
      let (p, ep) = passive_total parse_duration route.passive_health v.passive_health in
      let (b, eb) = breaker_total parse_duration route.circuit_breaker v.circuit_breaker in
      let (n, us) = v.upstreams in
      let (h, eh) =
        new_total parse_url
          (record {
            route_id = route.id;
            target = route.target;
            upstreams = to_proxy_upstream_options route.upstreams;
            strip_prefix = route.strip_prefix;
            active_health = a;
            passive_health = p;
            circuit_breaker = b;
          })
          (options-ne route.upstreams n) (addresses route.upstreams us) in
      (h, rw (ea, ep, eb, eh) refl)

-- A valid rate limit of a route makes no panic.
rate_total :
    (next : Handler) (route : RouteConfig) (r : RouteRuntime) (result : RegisterResult)
    → IsRateLimit route.rate_limit_rps route.rate_limit_burst
    → (a : Handler × RouteRuntime × RegisterResult) × (apply_route_rate_limit next route r result
        ≡ done a)
unfolding apply_route_rate_limit
rate_total next route r result v =
    let (b, e) =
      made_total (limit_name route) route.rate_limit_rps route.rate_limit_burst v.rps_small in
    elim (Bool-cases (leb_ℤ route.rate_limit_rps (pos 0))) [
      | inl off ↦ ((next, r, result), rw off refl)
      | inr on ↦ (
        (
          Handler.limit_rate (limit_name route) b next,
          record r { rate_limiter = b },
          record result { rate_limiters = result.rate_limiters ++ b ∷ [] },
        ),
        rw (on, e) refl,
      )
    ]

module _ (accepts : List Text → Text → Bool) (m : IsServeMux accepts)
    (parse_url : Text → Option Url) (parse_duration : Text → Option ℤ) where
  register_route_lem :
      (mux : Mux) (result : RegisterResult) (route : RouteConfig)
      → IsRoute parse_url parse_duration route
      → IsLiteral route.prefix
      → All IsLiteral (patterns mux)
      → Registers
          (register_route accepts parse_url parse_duration (mux, result) route)
          (λ a. a.0)
          (patterns mux)
          (route_patterns route.prefix)
  unfolding register_route register_route_patterns
  register_route_lem mux result route v l ls =
      let (h, eh) = proxy_total parse_url parse_duration route v in
      let (limited, r) =
        apply_route_concurrency_limit (Handler.proxy h) route (new_route_runtime route h) in
      let ((handler, r', result'), er) = rate_total limited route r result v.rate_limit in
      let done_ =
        handle_all_lem accepts m (route_patterns route.prefix)
          (Handler.with_route_id route.id handler) mux (route_patterns-literal route.prefix l) ls in
      elim done_ [
        | inl (a, (mux', e, q)) ↦
            let after = record result' {
              routes = result'.routes ++ r' ∷ [];
              proxy_handlers = result'.proxy_handlers ++ h ∷ [];
            } in
            inl (a, ((mux', after), rw (eh, er, e) refl, q))
        | inr (a, e) ↦ inr (a, rw (eh, er, e) refl)
      ]

  -- The registration of valid routes with literal prefixes returns no error: the mux takes every pattern,
  -- or it panics.
  pub register_from_lem :
      (mux : Mux) (result : RegisterResult) (routes : List RouteConfig)
      → All (IsRoute parse_url parse_duration) routes
      → All (λ r. IsLiteral r.prefix) routes
      → All IsLiteral (patterns mux)
      → Registers
          (register_from accepts parse_url parse_duration (mux, result) routes)
          (λ a. a.0)
          (patterns mux)
          (all_route_patterns routes)
  unfolding register_from
  register_from_lem mux result [] v l ls = inl (refl, ((mux, result), refl, refl))
  register_from_lem mux result (route ∷ routes) (v, vs) (l, l') ls =
      let ps = route_patterns route.prefix in
      let split = accepted-append (patterns mux) ps (all_route_patterns routes) in
      elim (register_route_lem mux result route v l ls) [
        | inl (a, ((mux', result'), e, q)) ↦
            let ls' : All IsLiteral (patterns mux') =
              rw q (
                All-behind IsLiteral (patterns mux) ps ls
                  (route_patterns-literal route.prefix l)) in
            let ih = register_from_lem mux' result' routes vs l' ls' in
            elim ih [
              | inl (a', (state, e', q')) ↦ inl (
                ground (arith, split, a, a', q),
                (
                  state,
                  rw (e, e') refl,
                  q'
                      ∙ ap (λ s. behind s (all_route_patterns routes)) q
                      ∙ sym (behind-append (patterns mux) ps (all_route_patterns routes)),
                ),
              )
              | inr (a', e') ↦ inr (ground (arith, split, a, a', q), rw (e, e') refl)
            ]
        | inr (a, e) ↦ inr (ground (arith, split, a), rw e refl)
      ]
