-- ===== src/Config/Types.antt =====
-- The configuration as internal/config/config.go declares it. A Go `int` is an integer; a duration is the
-- text that stands in the file.
use go_mini_gateway.Common.{ℤ, Text, Bool, List}

pub record ServerConfig : Type 0 where
  pub addr : Text
  pub request_timeout : Text
  pub shutdown_timeout : Text
  pub rate_limit_rps : ℤ
  pub rate_limit_burst : ℤ
  pub max_concurrency : ℤ

pub record AdminConfig : Type 0 where
  pub enabled : Bool
  pub addr : Text
  pub token : Text
  pub metrics_require_token : Bool
  pub pprof_enabled : Bool

pub record UpstreamConfig : Type 0 where
  pub id : Text
  pub url : Text

pub record HealthCheckConfig : Type 0 where
  pub enabled : Bool
  pub path : Text
  pub interval : Text
  pub timeout : Text

pub record PassiveHealthConfig : Type 0 where
  pub enabled : Bool
  pub failure_threshold : ℤ
  pub success_threshold : ℤ
  pub unhealthy_duration : Text

pub record CircuitBreakerConfig : Type 0 where
  pub enabled : Bool
  pub failure_threshold : ℤ
  pub open_duration : Text
  pub half_open_max_requests : ℤ

pub record RouteConfig : Type 0 where
  pub id : Text
  pub prefix : Text
  pub strip_prefix : Text
  pub target : Text
  pub upstreams : List UpstreamConfig
  pub rate_limit_rps : ℤ
  pub rate_limit_burst : ℤ
  pub max_concurrency : ℤ
  pub health_check : HealthCheckConfig
  pub passive_health : PassiveHealthConfig
  pub circuit_breaker : CircuitBreakerConfig

pub record Config : Type 0 where
  pub server : ServerConfig
  pub admin : AdminConfig
  pub routes : List RouteConfig
