-- ===== src/Server/Sample.antt =====
-- A configuration with one route, behind which there is one upstream, and what it gives.
use go_mini_gateway.Common.{
  ◌≡◌, refl, ℤ, pos, second, Text, Bool, false, not, Option, none, some, List, [], ◌∷◌, codes,
  has_prefix, text_eq, trim_space,
}
use go_mini_gateway.Url.{Url}
use go_mini_gateway.Config.Types.{Config, RouteConfig}
use go_mini_gateway.Config.Validate.{validate, contains}
use go_mini_gateway.Config.Validate.Spec.{IsConfig}
use go_mini_gateway.Config.Validate.Whole.{validate_iff}
use go_mini_gateway.Proxy.Upstream
use go_mini_gateway.Proxy.Passive.{new_passive_health_state}
use go_mini_gateway.Proxy.Breaker.{new_circuit_breaker_state}
use go_mini_gateway.Server.Outcome.{done}
use go_mini_gateway.Server.Routes.{Handler, Mux, RouteRuntime}
use go_mini_gateway.Server.Routes.Patterns.{IsLiteral, IsServeMux, plain-IsPlain}
use go_mini_gateway.Server.Runtime.{MainHandler, RuntimeBundle, build_runtime}
use go_mini_gateway.Server.Reload.{Server, new_server}

abbrev pub url : Url
url = record {
  scheme = codes "http";
  host = codes "h";
  path = [];
  raw_path = [];
  raw_query = [];
  rest = [];
}

-- Parsers that know one address and one duration.
abbrev pub parse_url : Text → Option Url
parse_url _ = some url

abbrev pub parse_duration : Text → Option ℤ
parse_duration _ = some (pos second)

-- A mux that takes every pattern once.
abbrev pub accepts : List Text → Text → Bool
accepts seen p = not (contains p seen)

pub mux : IsServeMux accepts
mux = record { literal = λ _ _ _ _. refl }

abbrev pub route : Text → RouteConfig
route prefix = record {
  id = codes "a";
  prefix = prefix;
  strip_prefix = codes "/";
  target = codes "http://h";
  upstreams = record { id = codes "u"; url = codes "http://h" } ∷ [];
  rate_limit_rps = pos 0;
  rate_limit_burst = pos 0;
  max_concurrency = pos 0;
  health_check = record { enabled = false; path = []; interval = []; timeout = [] };
  passive_health = record {
    enabled = false;
    failure_threshold = pos 0;
    success_threshold = pos 0;
    unhealthy_duration = [];
  };
  circuit_breaker = record {
    enabled = false;
    failure_threshold = pos 0;
    open_duration = [];
    half_open_max_requests = pos 0;
  };
}

abbrev pub config_with : Text → Config
config_with prefix = record {
  server = record {
    addr = codes ":80";
    request_timeout = codes "1s";
    shutdown_timeout = codes "1s";
    rate_limit_rps = pos 0;
    rate_limit_burst = pos 0;
    max_concurrency = pos 0;
  };
  admin = record {
    enabled = false;
    addr = [];
    token = [];
    metrics_require_token = false;
    pprof_enabled = false;
  };
  routes = route prefix ∷ [];
}

abbrev pub config : Config
config = config_with (codes "/a/")

pub config_valid : IsConfig parse_url parse_duration config
unfolding validate
config_valid = (validate_iff parse_url parse_duration config).0 refl

pub a_literal : IsLiteral (codes "/a/")
unfolding has_prefix
a_literal = (refl, plain-IsPlain (codes "/a/") refl)

abbrev pub upstreams : Upstream.Handler
upstreams = record {
  route_id = codes "a";
  strip_prefix = codes "/";
  upstreams =
      record {
        id = codes "u";
        url = url;
        active_health = none;
        passive_health = none;
        circuit_breaker = none;
      }
      ∷ [];
  next_index = 0;
}

abbrev route_runtime : RouteRuntime
route_runtime = record {
  id = codes "a";
  prefix = codes "/a/";
  strip_prefix = codes "/";
  target = codes "http://h";
  rate_limit_rps = pos 0;
  rate_limit_burst = pos 0;
  max_concurrency = pos 0;
  health_check_enabled = false;
  health_check_path = [];
  proxy_handler = upstreams;
  rate_limiter = none;
  concurrency_limiter = none;
}

abbrev route_handler : Handler
route_handler = Handler.with_route_id (codes "a") (Handler.proxy upstreams)

abbrev pub mux_of_route : Mux
mux_of_route =
    (codes "/a", route_handler)
    ∷ (codes "/a/", route_handler)
    ∷ (codes "/version", Handler.version)
    ∷ (codes "/health", Handler.health)
    ∷ (codes "/ping", Handler.ping)
    ∷ []

abbrev pub bundle : RuntimeBundle
bundle = record {
  handler =
      MainHandler.access_log
        (MainHandler.with_timeout (pos second) (MainHandler.serve_mux mux_of_route));
  routes = route_runtime ∷ [];
  proxy_handlers = upstreams ∷ [];
  rate_limiters = [];
  global_rate_limiter = none;
  global_concurrency_limiter = none;
}

pub built : build_runtime accepts parse_url parse_duration config ≡ done bundle
unfolding build_runtime contains text_eq trim_space new_passive_health_state
    new_circuit_breaker_state
built = refl

abbrev pub path : Text
path = codes "gateway.json"

abbrev pub server : Server
server = new_server accepts parse_url parse_duration config path bundle
