-- ===== src/Server/Options.antt =====
-- The options of the proxy from the configuration of a route: the functions toProxy* of
-- internal/server/route_runtime.go. None is the error of a duration that cannot be parsed.
use go_mini_gateway.Common.{
  ℤ, pos, Text, true, false, not, Option, none, some, List, [], map, if◌then◌else◌,
}
use go_mini_gateway.Config.Types.{
  UpstreamConfig, HealthCheckConfig, PassiveHealthConfig, CircuitBreakerConfig,
}
use go_mini_gateway.Config.Durations.{
  interval_duration, timeout_duration, unhealthy_duration_duration, open_duration_duration,
}
use go_mini_gateway.Proxy.Passive.{PassiveHealthOptions}
use go_mini_gateway.Proxy.Breaker.{CircuitBreakerOptions}
use go_mini_gateway.Proxy.Build.{UpstreamOptions, ActiveHealthOptions}

infixl 5 ◌>>=◌
abbrev ◌>>=◌ : {A B : Type 0} → Option A → (A → Option B) → Option B
none >>= follow = none
some a >>= follow = follow a

unfoldable pub to_proxy_upstream_options : List UpstreamConfig → List UpstreamOptions
to_proxy_upstream_options upstreams = map (λ u. record { id = u.id; url = u.url }) upstreams

module _ (parse_duration : Text → Option ℤ) where
  unfoldable pub to_proxy_active_health_options : HealthCheckConfig → Option ActiveHealthOptions
  unfolding interval_duration timeout_duration
  to_proxy_active_health_options c =
      if not c.enabled
      then some (record { enabled = false; path = []; interval = pos 0; timeout = pos 0 })
      else do
        interval ← interval_duration parse_duration c
        timeout ← timeout_duration parse_duration c
        some (record { enabled = true; path = c.path; interval = interval; timeout = timeout })

  unfoldable pub to_proxy_passive_health_options : PassiveHealthConfig → Option PassiveHealthOptions
  unfolding unhealthy_duration_duration
  to_proxy_passive_health_options c =
      if not c.enabled
      then some (record {
        enabled = false;
        failure_threshold = pos 0;
        success_threshold = pos 0;
        unhealthy_duration = pos 0;
      })
      else do
        unhealthy_duration ← unhealthy_duration_duration parse_duration c
        some (record {
          enabled = c.enabled;
          failure_threshold = c.failure_threshold;
          success_threshold = c.success_threshold;
          unhealthy_duration = unhealthy_duration;
        })

  unfoldable pub to_proxy_circuit_breaker_options :
      CircuitBreakerConfig → Option CircuitBreakerOptions
  unfolding open_duration_duration
  to_proxy_circuit_breaker_options c =
      if not c.enabled
      then some (record {
        enabled = false;
        failure_threshold = pos 0;
        open_duration = pos 0;
        half_open_max_requests = pos 0;
      })
      else do
        open_duration ← open_duration_duration parse_duration c
        some (record {
          enabled = c.enabled;
          failure_threshold = c.failure_threshold;
          open_duration = open_duration;
          half_open_max_requests = c.half_open_max_requests;
        })
