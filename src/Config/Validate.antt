-- ===== src/Config/Validate.antt =====
-- `validate` and its helpers in internal/config/config.go. `nil` is none, an error is its case; the texts
-- are left out, but for the place that they name. `url.Parse` and `time.ParseDuration` are parameters.
pub mod Spec
pub mod Parts
pub mod Upstreams
pub mod Whole
use go_mini_gateway.Common.{
  ℕ, zero, suc, ◌+◌, ◌*◌, ◌==◌, ℤ, pos, leb_ℤ, ltb_ℤ, Text, Bool, true, false, not, ◌&&◌, ◌||◌,
  Option, none, some, List, [], ◌∷◌, is_empty, length, has_prefix, text_eq, codes, second,
  if◌then◌else◌,
}
use go_mini_gateway.Url.{Url}
use go_mini_gateway.Config.Types.{
  Config, ServerConfig, AdminConfig, RouteConfig, UpstreamConfig, HealthCheckConfig,
  PassiveHealthConfig, CircuitBreakerConfig,
}

pub data Scope : Type 0 where
  server : Scope
  route : ℕ → Scope

pub data ConfigError : Type 0 where
  addr_required no_routes admin_addr_required admin_token_required metrics_needs_admin : ConfigError
  invalid_request_timeout invalid_shutdown_timeout : ConfigError
  negative_rps negative_burst burst_without_rps rps_too_large burst_too_large : Scope → ConfigError
  negative_concurrency concurrency_too_large : Scope → ConfigError
  id_required prefix_required strip_not_prefix upstreams_required target_required : ℕ → ConfigError
  duplicate_id duplicate_prefix : Text → ConfigError
  invalid_target incomplete_target : ℕ → ConfigError
  upstreams_empty : ℕ → ConfigError
  upstream_id_required upstream_url_required upstream_url_invalid upstream_url_incomplete :
      ℕ → ℕ → ConfigError
  duplicate_upstream_id : ℕ → Text → ConfigError
  health_path_required health_path_not_rooted invalid_interval invalid_timeout : ℕ → ConfigError
  interval_not_positive timeout_not_positive timeout_not_below_interval : ℕ → ConfigError
  passive_failures_not_positive passive_successes_not_positive : ℕ → ConfigError
  passive_failures_too_large passive_successes_too_large : ℕ → ConfigError
  invalid_unhealthy_duration unhealthy_duration_not_positive : ℕ → ConfigError
  breaker_failures_not_positive breaker_failures_too_large : ℕ → ConfigError
  half_open_not_positive half_open_too_large : ℕ → ConfigError
  invalid_open_duration open_duration_not_positive : ℕ → ConfigError

-- `if b { return e }`
abbrev pub fail_if : Bool → ConfigError → Option ConfigError
fail_if b e = if b then some e else none

-- One check, and the following ones if it passes.
infixr 5 ◌>>◌
abbrev pub ◌>>◌ : Option ConfigError → Option ConfigError → Option ConfigError
none >> k = k
some e >> k = some e

abbrev limit : ℤ
limit = pos 100000

unfoldable pub validate_rate_limit : Scope → ℤ → ℤ → Option ConfigError
validate_rate_limit scope rps burst =
    fail_if (ltb_ℤ rps (pos 0)) (negative_rps scope)
    >> (fail_if (ltb_ℤ burst (pos 0)) (negative_burst scope)
        >> (fail_if (leb_ℤ rps (pos 0) && leb_ℤ (pos 0) rps && ltb_ℤ (pos 0) burst)
              (burst_without_rps scope)
            >> (fail_if (ltb_ℤ limit rps) (rps_too_large scope)
                >> fail_if (ltb_ℤ limit burst) (burst_too_large scope))))

unfoldable pub validate_max_concurrency : Scope → ℤ → Option ConfigError
validate_max_concurrency scope n =
    fail_if (ltb_ℤ n (pos 0)) (negative_concurrency scope)
    >> fail_if (ltb_ℤ limit n) (concurrency_too_large scope)

unfoldable pub validate_admin : AdminConfig → Option ConfigError
validate_admin c =
    if not c.enabled
    then fail_if c.metrics_require_token metrics_needs_admin
    else fail_if (is_empty c.addr) admin_addr_required
      >> fail_if (is_empty c.token) admin_token_required

-- Whether a key of the map `seen` is the text.
unfoldable pub contains : Text → List Text → Bool
contains t [] = false
contains t (s ∷ seen) = text_eq s t || contains t seen

-- The text's duration, or the default for the empty text.
unfoldable pub duration_or : (Text → Option ℤ) → Text → ℕ → Option ℤ
duration_or parse_duration text d = if is_empty text then some (pos d) else parse_duration text

unfoldable pub timeout_error : ConfigError → Option ℤ → Option ConfigError
timeout_error e none = some e
timeout_error e (some d) = none

target_error : ConfigError → ConfigError → Option Url → Option ConfigError
target_error invalid incomplete none = some invalid
target_error invalid incomplete (some url) =
    fail_if (is_empty url.scheme || is_empty url.host) incomplete

positive_duration : ConfigError → ConfigError → Option ℤ → Option ConfigError
positive_duration invalid e none = some invalid
positive_duration invalid e (some d) = fail_if (leb_ℤ d (pos 0)) e

health_durations : ℕ → Option ℤ → Option ℤ → Option ConfigError
health_durations r none t = some (invalid_interval r)
health_durations r (some interval) none = some (invalid_timeout r)
health_durations r (some interval) (some timeout) =
    fail_if (leb_ℤ interval (pos 0)) (interval_not_positive r)
    >> (fail_if (leb_ℤ timeout (pos 0)) (timeout_not_positive r)
        >> fail_if (leb_ℤ interval timeout) (timeout_not_below_interval r))

module _ (parse_url : Text → Option Url) (parse_duration : Text → Option ℤ) where
  unfoldable pub validate_target_url : ConfigError → ConfigError → Text → Option ConfigError
  unfolding target_error
  validate_target_url invalid incomplete raw = target_error invalid incomplete (parse_url raw)

  validate_upstreams_from : ℕ → ℕ → List Text → List UpstreamConfig → Option ConfigError
  unfolding validate_target_url contains
  validate_upstreams_from r i seen [] = none
  validate_upstreams_from r i seen (u ∷ us) =
      fail_if (is_empty u.id) (upstream_id_required r i)
      >> (fail_if (contains u.id seen) (duplicate_upstream_id r u.id)
          >> (fail_if (is_empty u.url) (upstream_url_required r i)
              >> (validate_target_url (upstream_url_invalid r i) (upstream_url_incomplete r i) u.url
                  >> validate_upstreams_from r (i + 1) (u.id ∷ seen) us)))

  unfoldable pub validate_upstreams : ℕ → List UpstreamConfig → Option ConfigError
  unfolding validate_upstreams_from
  validate_upstreams r us =
      fail_if (length us == 0) (upstreams_empty r) >> validate_upstreams_from r 0 [] us

  unfoldable pub validate_health_check : ℕ → HealthCheckConfig → Option ConfigError
  unfolding health_durations duration_or has_prefix
  validate_health_check r c =
      if not c.enabled
      then none
      else fail_if (is_empty c.path) (health_path_required r)
        >> (fail_if (not (has_prefix c.path (codes "/"))) (health_path_not_rooted r)
            >> health_durations r (duration_or parse_duration c.interval (5 * second))
                (duration_or parse_duration c.timeout second))

  unfoldable pub validate_passive_health : ℕ → PassiveHealthConfig → Option ConfigError
  unfolding positive_duration duration_or
  validate_passive_health r c =
      if not c.enabled
      then none
      else fail_if (leb_ℤ c.failure_threshold (pos 0)) (passive_failures_not_positive r)
        >> (fail_if (leb_ℤ c.success_threshold (pos 0)) (passive_successes_not_positive r)
            >> (fail_if (ltb_ℤ limit c.failure_threshold) (passive_failures_too_large r)
                >> (fail_if (ltb_ℤ limit c.success_threshold) (passive_successes_too_large r)
                    >> positive_duration (invalid_unhealthy_duration r)
                        (unhealthy_duration_not_positive r)
                        (duration_or parse_duration c.unhealthy_duration (10 * second)))))

  unfoldable pub validate_circuit_breaker : ℕ → CircuitBreakerConfig → Option ConfigError
  unfolding positive_duration duration_or
  validate_circuit_breaker r c =
      if not c.enabled
      then none
      else fail_if (leb_ℤ c.failure_threshold (pos 0)) (breaker_failures_not_positive r)
        >> (fail_if (ltb_ℤ limit c.failure_threshold) (breaker_failures_too_large r)
            >> (fail_if (leb_ℤ c.half_open_max_requests (pos 0)) (half_open_not_positive r)
                >> (fail_if (ltb_ℤ limit c.half_open_max_requests) (half_open_too_large r)
                    >> positive_duration (invalid_open_duration r) (open_duration_not_positive r)
                        (duration_or parse_duration c.open_duration (10 * second)))))

  -- The checks of one route behind those of its id and prefix.
  unfoldable pub validate_route : ℕ → RouteConfig → Option ConfigError
  unfolding validate_upstreams validate_rate_limit validate_max_concurrency validate_health_check
      validate_passive_health validate_circuit_breaker validate_target_url has_prefix
  validate_route i c =
      fail_if (not (is_empty c.strip_prefix) && not (has_prefix c.prefix c.strip_prefix))
        (strip_not_prefix i)
      >> (fail_if (length c.upstreams == 0) (upstreams_required i)
          >> (fail_if (is_empty c.target) (target_required i)
              >> (validate_target_url (invalid_target i) (incomplete_target i) c.target
                  >> (validate_upstreams i c.upstreams
                      >> (validate_rate_limit (route i) c.rate_limit_rps c.rate_limit_burst
                          >> (validate_max_concurrency (route i) c.max_concurrency
                              >> (validate_health_check i c.health_check
                                  >> (validate_passive_health i c.passive_health
                                      >> validate_circuit_breaker i c.circuit_breaker))))))))

  -- The loop over the routes, with the ids and the prefixes that were seen.
  validate_routes : ℕ → List Text → List Text → List RouteConfig → Option ConfigError
  unfolding validate_route contains
  validate_routes i ids prefixes [] = none
  validate_routes i ids prefixes (c ∷ cs) =
      fail_if (is_empty c.id) (id_required i)
      >> (fail_if (contains c.id ids) (duplicate_id c.id)
          >> (fail_if (is_empty c.prefix) (prefix_required i)
              >> (fail_if (contains c.prefix prefixes) (duplicate_prefix c.prefix)
                  >> (validate_route i c
                      >> validate_routes (i + 1) (c.id ∷ ids) (c.prefix ∷ prefixes) cs))))

  unfoldable pub validate : Config → Option ConfigError
  unfolding validate_routes timeout_error duration_or validate_rate_limit validate_max_concurrency
      validate_admin
  validate c =
      fail_if (is_empty (c.server).addr) addr_required
      >> (timeout_error invalid_request_timeout
            (duration_or parse_duration (c.server).request_timeout (3 * second))
          >> (timeout_error invalid_shutdown_timeout
                (duration_or parse_duration (c.server).shutdown_timeout (10 * second))
              >> (validate_rate_limit server (c.server).rate_limit_rps (c.server).rate_limit_burst
                  >> (validate_max_concurrency server (c.server).max_concurrency
                      >> (validate_admin c.admin
                          >> (fail_if (length c.routes == 0) no_routes
                              >> validate_routes 0 [] [] c.routes))))))
