-- ===== src/Config/Normalize.antt =====
-- `normalize` and its helpers in internal/config/config.go. Each route is treated by itself; the defaults
-- of a route stand in the order of the source.
pub mod Prefixes
pub mod Routes
use go_mini_gateway.Common.{
  ℕ, zero, suc, ◌+◌, ◌==◌, ℤ, pos, leb_ℤ, ltb_ℤ, Text, Bool, true, false, not, ◌&&◌, ◌||◌, List, [],
  ◌∷◌, ◌++◌, is_empty, length, trim_space, trim_right, has_prefix, ends_with, text_eq, codes, itoa,
  if◌then◌else◌,
}
use go_mini_gateway.Config.Types.{
  Config, ServerConfig, AdminConfig, RouteConfig, UpstreamConfig, HealthCheckConfig,
  PassiveHealthConfig, CircuitBreakerConfig,
}

abbrev is_slash : ℕ → Bool
is_slash c = c == b'/'

-- `strings.TrimRight(s, "/")`
unfoldable pub trim_slashes : Text → Text
unfolding trim_right
trim_slashes s = trim_right is_slash s

unfoldable pub normalize_target_url : Text → Text
unfolding trim_slashes trim_space
normalize_target_url target = trim_slashes (trim_space target)

unfoldable pub rooted : Text → Text
unfolding has_prefix
rooted s = if not (has_prefix s (codes "/")) then codes "/" ++ s else s

closed : Text → Text
unfolding ends_with
closed s = if not (ends_with s b'/') then s ++ codes "/" else s

unfoldable pub normalize_prefix : Text → Text
unfolding rooted closed
normalize_prefix prefix =
    let p = trim_space prefix in if is_empty p then codes "/" else closed (rooted p)

unclosed : Text → Text
unfolding trim_slashes ends_with text_eq
unclosed s = if ends_with s b'/' && not (text_eq s (codes "/")) then trim_slashes s else s

unfoldable pub normalize_strip_prefix : Text → Text
unfolding rooted unclosed
normalize_strip_prefix strip_prefix =
    let p = trim_space strip_prefix in if is_empty p then codes "/" else unclosed (rooted p)

-- `if s == "" { s = d }`
abbrev pub or_text : Text → Text → Text
or_text s d = if is_empty s then d else s

-- `if x <= 0 { x = d }`
abbrev or_int : ℤ → ℤ → ℤ
or_int x d = if leb_ℤ x (pos 0) then d else x

-- The burst of a limit that is on and has none: the rate.
abbrev default_burst : ℤ → ℤ → ℤ
default_burst rps burst = if ltb_ℤ (pos 0) rps && leb_ℤ burst (pos 0) then rps else burst

abbrev pub default_addr : Text
default_addr = codes ":8080"

abbrev pub default_admin_addr : Text
default_admin_addr = codes "127.0.0.1:9001"

-- The defaults of the timeouts are the texts of three and ten seconds.
unfoldable pub normalize_server : ServerConfig → ServerConfig
normalize_server c = record c {
  addr = or_text c.addr default_addr;
  request_timeout = or_text c.request_timeout (codes "3s");
  shutdown_timeout = or_text c.shutdown_timeout (codes "10s");
  rate_limit_burst = default_burst c.rate_limit_rps c.rate_limit_burst;
}

unfoldable pub normalize_admin : AdminConfig → AdminConfig
normalize_admin c =
    let addr = trim_space c.addr in
    record c {
      addr = if c.enabled && is_empty addr then default_admin_addr else addr;
      token = trim_space c.token;
    }

unfoldable pub normalize_upstream : ℕ → UpstreamConfig → UpstreamConfig
unfolding normalize_target_url
normalize_upstream j u = record {
  id = or_text (trim_space u.id) (codes "upstream-" ++ itoa (j + 1));
  url = normalize_target_url u.url;
}

normalize_upstreams : ℕ → List UpstreamConfig → List UpstreamConfig
unfolding normalize_upstream
normalize_upstreams j [] = []
normalize_upstreams j (u ∷ us) = normalize_upstream j u ∷ normalize_upstreams (j + 1) us

-- A route with a target and no upstream gets the target as its upstream.
default_upstreams : Text → List UpstreamConfig → List UpstreamConfig
default_upstreams target [] =
    if not (is_empty target) then record { id = codes "default"; url = target } ∷ [] else []
default_upstreams target (u ∷ us) = u ∷ us

-- A route with upstreams and no target gets the address of the first one.
default_target : Text → List UpstreamConfig → Text
default_target target [] = target
default_target target (u ∷ us) = or_text target u.url

normalize_passive : PassiveHealthConfig → PassiveHealthConfig
normalize_passive c =
    if c.enabled
    then record c {
      failure_threshold = or_int c.failure_threshold (pos 3);
      success_threshold = or_int c.success_threshold (pos 1);
      unhealthy_duration = or_text c.unhealthy_duration (codes "10s");
    }
    else c

normalize_breaker : CircuitBreakerConfig → CircuitBreakerConfig
normalize_breaker c =
    if c.enabled
    then record c {
      failure_threshold = or_int c.failure_threshold (pos 5);
      open_duration = or_text c.open_duration (codes "10s");
      half_open_max_requests = or_int c.half_open_max_requests (pos 1);
    }
    else c

normalize_health : HealthCheckConfig → HealthCheckConfig
unfolding rooted
normalize_health c =
    if c.enabled
    then record c {
      path = rooted (or_text (trim_space c.path) (codes "/health"));
      interval = or_text c.interval (codes "5s");
      timeout = or_text c.timeout (codes "1s");
    }
    else c

unfoldable pub normalize_route : RouteConfig → RouteConfig
unfolding normalize_prefix normalize_strip_prefix normalize_target_url normalize_upstreams
    default_upstreams default_target normalize_passive normalize_breaker normalize_health
normalize_route c =
    let target = normalize_target_url c.target in
    let upstreams = default_upstreams target (normalize_upstreams 0 c.upstreams) in
    record c {
      id = trim_space c.id;
      prefix = normalize_prefix c.prefix;
      strip_prefix = normalize_strip_prefix c.strip_prefix;
      target = default_target target upstreams;
      upstreams = upstreams;
      rate_limit_burst = default_burst c.rate_limit_rps c.rate_limit_burst;
      passive_health = normalize_passive c.passive_health;
      circuit_breaker = normalize_breaker c.circuit_breaker;
      health_check = normalize_health c.health_check;
    }

normalize_routes : List RouteConfig → List RouteConfig
unfolding normalize_route
normalize_routes [] = []
normalize_routes (r ∷ rs) = normalize_route r ∷ normalize_routes rs

unfoldable pub normalize : Config → Config
unfolding normalize_server normalize_admin normalize_routes
normalize c = record {
  server = normalize_server c.server;
  admin = normalize_admin c.admin;
  routes = normalize_routes c.routes;
}
