-- ===== src/Config/Expand.antt =====
-- `expandConfigEnv` of internal/config/env.go: the fields of the configuration that are expanded, in the
-- order of the source; the first error stops it.
use go_mini_gateway.Common.{Text, Option, List, [], ◌∷◌, ◌≡◌, refl, All, Result, ok, ◌>>=◌}
use go_mini_gateway.Config.Types.{Config, ServerConfig, AdminConfig, RouteConfig, UpstreamConfig}
use go_mini_gateway.Config.Env.{EnvError, expand_env_string}
use go_mini_gateway.Config.Env.Scan.{IsLiteral, expand_env_string_literal}

module _ (lookup_env : Text → Option Text) where
  expand_server : ServerConfig → Result EnvError ServerConfig
  expand_server c = do
    addr ← expand_env_string lookup_env c.addr
    request_timeout ← expand_env_string lookup_env c.request_timeout
    shutdown_timeout ← expand_env_string lookup_env c.shutdown_timeout
    ok (record c {
      addr = addr;
      request_timeout = request_timeout;
      shutdown_timeout = shutdown_timeout;
    })

  expand_admin : AdminConfig → Result EnvError AdminConfig
  expand_admin c = do
    addr ← expand_env_string lookup_env c.addr
    token ← expand_env_string lookup_env c.token
    ok (record c { addr = addr; token = token })

  expand_upstreams : List UpstreamConfig → Result EnvError (List UpstreamConfig)
  expand_upstreams [] = ok []
  expand_upstreams (u ∷ us) = do
    id ← expand_env_string lookup_env u.id
    url ← expand_env_string lookup_env u.url
    rest ← expand_upstreams us
    ok (record { id = id; url = url } ∷ rest)

  expand_route : RouteConfig → Result EnvError RouteConfig
  unfolding expand_upstreams
  expand_route c = do
    id ← expand_env_string lookup_env c.id
    prefix ← expand_env_string lookup_env c.prefix
    strip_prefix ← expand_env_string lookup_env c.strip_prefix
    target ← expand_env_string lookup_env c.target
    upstreams ← expand_upstreams c.upstreams
    unhealthy_duration ← expand_env_string lookup_env (c.passive_health).unhealthy_duration
    open_duration ← expand_env_string lookup_env (c.circuit_breaker).open_duration
    path ← expand_env_string lookup_env (c.health_check).path
    interval ← expand_env_string lookup_env (c.health_check).interval
    timeout ← expand_env_string lookup_env (c.health_check).timeout
    ok (record c {
      id = id;
      prefix = prefix;
      strip_prefix = strip_prefix;
      target = target;
      upstreams = upstreams;
      passive_health = record (c.passive_health) { unhealthy_duration = unhealthy_duration };
      circuit_breaker = record (c.circuit_breaker) { open_duration = open_duration };
      health_check = record (c.health_check) {
        path = path;
        interval = interval;
        timeout = timeout;
      };
    })

  expand_routes : List RouteConfig → Result EnvError (List RouteConfig)
  unfolding expand_route
  expand_routes [] = ok []
  expand_routes (r ∷ rs) = do route ← expand_route r; rest ← expand_routes rs; ok (route ∷ rest)

  unfoldable pub expand_config_env : Config → Result EnvError Config
  unfolding expand_server expand_admin expand_routes
  expand_config_env c = do
    server ← expand_server c.server
    admin ← expand_admin c.admin
    routes ← expand_routes c.routes
    ok (record { server = server; admin = admin; routes = routes })

-- No field that is expanded holds a reference.
abbrev pub IsLiteralUpstream : UpstreamConfig → Type 0
IsLiteralUpstream u = IsLiteral u.id × IsLiteral u.url

pub record IsLiteralRoute (c : RouteConfig) : Type 0 where
  pub id : IsLiteral c.id
  pub prefix : IsLiteral c.prefix
  pub strip_prefix : IsLiteral c.strip_prefix
  pub target : IsLiteral c.target
  pub upstreams : All IsLiteralUpstream c.upstreams
  pub unhealthy_duration : IsLiteral (c.passive_health).unhealthy_duration
  pub open_duration : IsLiteral (c.circuit_breaker).open_duration
  pub path : IsLiteral (c.health_check).path
  pub interval : IsLiteral (c.health_check).interval
  pub timeout : IsLiteral (c.health_check).timeout

pub record IsLiteralConfig (c : Config) : Type 0 where
  pub addr : IsLiteral (c.server).addr
  pub request_timeout : IsLiteral (c.server).request_timeout
  pub shutdown_timeout : IsLiteral (c.server).shutdown_timeout
  pub admin_addr : IsLiteral (c.admin).addr
  pub token : IsLiteral (c.admin).token
  pub routes : All IsLiteralRoute c.routes

module _ (lookup_env : Text → Option Text) where
  abbrev same : (t : Text) → IsLiteral t → expand_env_string lookup_env t ≡ ok t
  same = expand_env_string_literal lookup_env

  expand_upstreams_literal :
      (us : List UpstreamConfig) → All IsLiteralUpstream us → expand_upstreams lookup_env us ≡ ok us
  unfolding expand_upstreams
  expand_upstreams_literal [] h = refl
  expand_upstreams_literal (u ∷ us) ((i, l), h) =
      rw (same u.id i, same u.url l, expand_upstreams_literal us h)

  expand_route_literal : (c : RouteConfig) → IsLiteralRoute c → expand_route lookup_env c ≡ ok c
  unfolding expand_route
  expand_route_literal c h = rw (
    same c.id h.id,
    same c.prefix h.prefix,
    same c.strip_prefix h.strip_prefix,
    same c.target h.target,
    expand_upstreams_literal c.upstreams h.upstreams,
    same _ h.unhealthy_duration,
    same _ h.open_duration,
    same _ h.path,
    same _ h.interval,
    same _ h.timeout,
  )

  expand_routes_literal :
      (rs : List RouteConfig) → All IsLiteralRoute rs → expand_routes lookup_env rs ≡ ok rs
  unfolding expand_routes
  expand_routes_literal [] h = refl
  expand_routes_literal (r ∷ rs) (l, h) = rw (expand_route_literal r l, expand_routes_literal rs h)

  -- A configuration with no reference in the fields that are expanded is left as it is, whatever the
  -- environment.
  pub expand_config_env_literal :
      (c : Config) → IsLiteralConfig c → expand_config_env lookup_env c ≡ ok c
  unfolding expand_config_env expand_server expand_admin
  expand_config_env_literal c h = rw (
    same _ h.addr,
    same _ h.request_timeout,
    same _ h.shutdown_timeout,
    same _ h.admin_addr,
    same _ h.token,
    expand_routes_literal c.routes h.routes,
  )
