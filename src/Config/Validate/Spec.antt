-- ===== src/Config/Validate/Spec.antt =====
-- What a valid configuration is, field by field, without the order of the checks.
use go_mini_gateway.Common.{
  ℕ, ◌*◌, ◌≡◌, ◌≢◌, ℤ, pos, ◌≤ℤ◌, ◌<ℤ◌, Text, true, false, Option, none, some, List, [], ◌∷◌,
  has_prefix, codes, map, second, All,
}
use go_mini_gateway.Url.{Url}
use go_mini_gateway.Config.Types.{
  Config, AdminConfig, RouteConfig, UpstreamConfig, HealthCheckConfig, PassiveHealthConfig,
  CircuitBreakerConfig,
}
use go_mini_gateway.Config.Validate.{duration_or}

-- From 1 to 100000.
abbrev pub IsThreshold : ℤ → Type 0
IsThreshold n = (pos 0 <ℤ n) × (n ≤ℤ pos 100000)

pub record IsRateLimit (rps burst : ℤ) : Type 0 where
  pub rps_nonneg : pos 0 ≤ℤ rps
  pub rps_small : rps ≤ℤ pos 100000
  pub burst_nonneg : pos 0 ≤ℤ burst
  pub burst_small : burst ≤ℤ pos 100000
  pub burst_needs_rps : pos 0 <ℤ burst → pos 0 <ℤ rps

abbrev pub IsConcurrency : ℤ → Type 0
IsConcurrency n = (pos 0 ≤ℤ n) × (n ≤ℤ pos 100000)

pub record IsAdmin (c : AdminConfig) : Type 0 where
  pub token_for_metrics : c.enabled ≡ false → c.metrics_require_token ≡ false
  pub addr : c.enabled ≡ true → c.addr ≢ []
  pub token : c.enabled ≡ true → c.token ≢ []

-- No text stands twice in the list.
abbrev pub AllDistinct : List Text → Type 0
AllDistinct [] = Unit
AllDistinct (t ∷ ts) = All (λ s. s ≢ t) ts × AllDistinct ts

-- The text is an address with a scheme and a host.
abbrev pub IsAddress : (Text → Option Url) → Text → Type 0
IsAddress parse_url t = (url : Url) × (parse_url t ≡ some url) × (url.scheme ≢ []) × (url.host ≢ [])

abbrev pub IsPositiveDuration : (Text → Option ℤ) → Text → ℕ → Type 0
IsPositiveDuration parse_duration t d =
    (n : ℤ) × (duration_or parse_duration t d ≡ some n) × (pos 0 <ℤ n)

-- The path begins with a slash, and the timeout is positive and below the interval.
pub record IsHealthCheck (parse_duration : Text → Option ℤ) (c : HealthCheckConfig) : Type 0 where
  pub path : has_prefix c.path (codes "/") ≡ true
  pub interval : ℤ
  pub timeout : ℤ
  pub interval_is : duration_or parse_duration c.interval (5 * second) ≡ some interval
  pub timeout_is : duration_or parse_duration c.timeout second ≡ some timeout
  pub timeout_pos : pos 0 <ℤ timeout
  pub timeout_below : timeout <ℤ interval

pub record IsPassiveHealth (parse_duration : Text → Option ℤ) (c : PassiveHealthConfig)
    : Type 0 where
  pub failures : IsThreshold c.failure_threshold
  pub successes : IsThreshold c.success_threshold
  pub duration : IsPositiveDuration parse_duration c.unhealthy_duration (10 * second)

pub record IsCircuitBreaker (parse_duration : Text → Option ℤ) (c : CircuitBreakerConfig)
    : Type 0 where
  pub failures : IsThreshold c.failure_threshold
  pub probes : IsThreshold c.half_open_max_requests
  pub duration : IsPositiveDuration parse_duration c.open_duration (10 * second)

abbrev pub IsUpstream : (Text → Option Url) → UpstreamConfig → Type 0
IsUpstream parse_url u = (u.id ≢ []) × (u.url ≢ []) × IsAddress parse_url u.url

pub record IsRoute (parse_url : Text → Option Url) (parse_duration : Text → Option ℤ)
    (c : RouteConfig) : Type 0 where
  pub id : c.id ≢ []
  pub prefix : c.prefix ≢ []
  pub strip_prefix : has_prefix c.prefix c.strip_prefix ≡ true
  pub target : (c.target ≢ []) × IsAddress parse_url c.target
  pub upstreams : (c.upstreams ≢ []) × All (IsUpstream parse_url) c.upstreams
  pub upstream_ids : AllDistinct (map (λ u. u.id) c.upstreams)
  pub rate_limit : IsRateLimit c.rate_limit_rps c.rate_limit_burst
  pub concurrency : IsConcurrency c.max_concurrency
  pub health_check : (c.health_check).enabled ≡ true → IsHealthCheck parse_duration c.health_check
  pub passive_health :
      (c.passive_health).enabled ≡ true → IsPassiveHealth parse_duration c.passive_health
  pub circuit_breaker :
      (c.circuit_breaker).enabled ≡ true → IsCircuitBreaker parse_duration c.circuit_breaker

pub record IsConfig (parse_url : Text → Option Url) (parse_duration : Text → Option ℤ) (c : Config)
    : Type 0 where
  pub addr : (c.server).addr ≢ []
  pub request_timeout : duration_or parse_duration (c.server).request_timeout (3 * second) ≢ none
  pub shutdown_timeout : duration_or parse_duration (c.server).shutdown_timeout (10 * second) ≢ none
  pub rate_limit : IsRateLimit (c.server).rate_limit_rps (c.server).rate_limit_burst
  pub concurrency : IsConcurrency (c.server).max_concurrency
  pub admin : IsAdmin c.admin
  pub some_route : c.routes ≢ []
  pub routes : All (IsRoute parse_url parse_duration) c.routes
  pub ids : AllDistinct (map (λ r. r.id) c.routes)
  pub prefixes : AllDistinct (map (λ r. r.prefix) c.routes)
