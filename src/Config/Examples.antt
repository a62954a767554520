-- ===== src/Config/Examples.antt =====
-- The theorems on the configuration at one with one route.
use go_mini_gateway.Common.{
  ◌≡◌, ◌≢◌, ◌↔◌, refl, ℤ, pos, second, ◌*◌, Text, true, false, Option, none, some, [], ◌∷◌, ◌++◌,
  codes, arith, has_prefix, trim_space, text_eq, if◌then◌else◌, ok, err, ◌>>=◌,
}
use go_mini_gateway.Url.{Url}
use go_mini_gateway.Config.Types.{Config, RouteConfig}
use go_mini_gateway.Config.Env.{
  out_of_fuel, expand_env_expression, expand_env_string, split_env_expression, opens,
}
use go_mini_gateway.Config.Env.Scan.{
  IsLiteral, expand_env_string_total, expand_env_string_reference,
}
use go_mini_gateway.Config.Normalize.{normalize_strip_prefix, normalize}
use go_mini_gateway.Config.Validate.{validate}
use go_mini_gateway.Config.Validate.Spec.{IsConfig}
use go_mini_gateway.Config.Validate.Whole.{validate_iff}

abbrev lookup_env : Text → Option Text
lookup_env name = if text_eq name (codes "PORT") then some (codes "8080") else none

expand_test : expand_env_string lookup_env (codes ":${PORT}/${ PATH :/v1}") ≡ ok (codes ":8080//v1")
unfolding expand_env_string expand_env_expression trim_space text_eq split_env_expression
expand_test = refl

colon-IsLiteral : IsLiteral (codes ":")
unfolding opens
colon-IsLiteral = (refl, tt)

expand_env_string_reference_example :
    expand_env_string lookup_env (codes ":" ++ (codes "${" ++ (codes "PORT" ++ b'}' ∷ codes "/")))
    ≡ (expand_env_expression lookup_env (codes "PORT") >>= λ v.
        expand_env_string lookup_env (codes "/") >>= λ p. ok (codes ":" ++ (v ++ p)))
expand_env_string_reference_example =
    expand_env_string_reference lookup_env (codes ":") (codes "PORT") (codes "/") colon-IsLiteral
      (ground arith)

expand_env_string_total_example : expand_env_string lookup_env (codes "a${PORT") ≢ err out_of_fuel
expand_env_string_total_example = expand_env_string_total lookup_env (codes "a${PORT")

path_named : trim_space (codes "PATH") ≢ []
unfolding trim_space
path_named = λ e. ground arith

path_shape : trim_space (codes "PATH:/v1") ≡ codes "PATH" ++ b':' ∷ codes "/v1"
unfolding trim_space
path_shape = refl

port_named : trim_space (codes "PORT") ≢ []
unfolding trim_space
port_named = λ e. ground arith

port_shape : trim_space (codes " PORT") ≡ codes "PORT"
unfolding trim_space
port_shape = refl

abbrev sample : RouteConfig
sample = record {
  id = codes "api";
  prefix = codes "api";
  strip_prefix = codes "/api/";
  target = codes "http://a:80/";
  upstreams = [];
  rate_limit_rps = pos 10;
  rate_limit_burst = pos 0;
  max_concurrency = pos 5;
  health_check = record { enabled = true; path = codes "health"; interval = []; timeout = [] };
  passive_health = record {
    enabled = true;
    failure_threshold = pos 0;
    success_threshold = pos 0;
    unhealthy_duration = [];
  };
  circuit_breaker = record {
    enabled = true;
    failure_threshold = pos 0;
    open_duration = [];
    half_open_max_requests = pos 0;
  };
}

abbrev config : Config
config = record {
  server = record {
    addr = codes ":8080";
    request_timeout = [];
    shutdown_timeout = [];
    rate_limit_rps = pos 0;
    rate_limit_burst = pos 0;
    max_concurrency = pos 0;
  };
  admin = record {
    enabled = false;
    addr = [];
    token = [];
    metrics_require_token = false;
    pprof_enabled = false;
  };
  routes = sample ∷ [];
}

abbrev parse_url : Text → Option Url
parse_url t = some (record {
  scheme = codes "http";
  host = codes "a:80";
  path = [];
  raw_path = [];
  raw_query = [];
  rest = [];
})

abbrev parse_duration : Text → Option ℤ
parse_duration t = if text_eq t (codes "1s") then some (pos second) else some (pos (10 * second))

-- A configuration as `normalize` leaves it passes.
validate_test : validate parse_url parse_duration (normalize config) ≡ none
unfolding validate normalize text_eq
validate_test = refl

validate_iff_example :
    (validate parse_url parse_duration (normalize config) ≡ none)
    ↔ IsConfig parse_url parse_duration (normalize config)
validate_iff_example = validate_iff parse_url parse_duration (normalize config)

-- Two slashes are trimmed to the empty text, which a second pass takes for a slash.
strip_prefix_test : normalize_strip_prefix (codes "//") ≡ []
unfolding normalize_strip_prefix trim_space has_prefix text_eq
strip_prefix_test = refl
