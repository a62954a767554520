-- ===== src/Config/Durations.antt =====
-- The durations that the configuration gives to the rest of the program, and its address: the accessors
-- of internal/config/config.go. The error behind a text that is no duration is left out.
use go_mini_gateway.Common.{◌*◌, ℤ, Text, Option, is_empty, second, if◌then◌else◌}
use go_mini_gateway.Config.Types.{
  Config, HealthCheckConfig, PassiveHealthConfig, CircuitBreakerConfig,
}
use go_mini_gateway.Config.Normalize.{default_addr}
use go_mini_gateway.Config.Validate.{duration_or}

unfoldable pub addr : Config → Text
addr c = if is_empty c.server.addr then default_addr else c.server.addr

module _ (parse_duration : Text → Option ℤ) where
  unfoldable pub request_timeout_duration : Config → Option ℤ
  unfolding duration_or
  request_timeout_duration c = duration_or parse_duration c.server.request_timeout (3 * second)

  unfoldable pub shutdown_timeout_duration : Config → Option ℤ
  unfolding duration_or
  shutdown_timeout_duration c = duration_or parse_duration c.server.shutdown_timeout (10 * second)

  unfoldable pub interval_duration : HealthCheckConfig → Option ℤ
  unfolding duration_or
  interval_duration h = duration_or parse_duration h.interval (5 * second)

  unfoldable pub timeout_duration : HealthCheckConfig → Option ℤ
  unfolding duration_or
  timeout_duration h = duration_or parse_duration h.timeout second

  unfoldable pub unhealthy_duration_duration : PassiveHealthConfig → Option ℤ
  unfolding duration_or
  unhealthy_duration_duration p = duration_or parse_duration p.unhealthy_duration (10 * second)

  unfoldable pub open_duration_duration : CircuitBreakerConfig → Option ℤ
  unfolding duration_or
  open_duration_duration c = duration_or parse_duration c.open_duration (10 * second)
