-- ===== src/Server/Reload.antt =====
-- The server of internal/server/server.go and its reload, internal/server/reload.go. The registry of the
-- metrics is the same for the whole life of the server and left out; so are the mutex and log lines. The
-- handler of the main server is what `reloadableHandler` stores. Limiters and handlers of the routes stand
-- here as they are built; what requests make of them later is in the modules of their packages.
pub mod Laws
pub mod Closing
pub mod Installed
pub mod Exchange
pub mod Consistent
use go_mini_gateway.Common.{
  ℤ, Text, Time, Bool, true, false, not, Option, none, some, List, [], ◌∷◌, map, is_empty, text_eq,
  Result, ok, err, if◌then◌else◌,
}
use mathlib.Core.Option
use go_mini_gateway.Url.{Url}
use go_mini_gateway.Config.Types.{Config}
use go_mini_gateway.Config.Durations
use go_mini_gateway.Config.Load.{LoadError, load}
use go_mini_gateway.Concurrency.Limiter.{Limiter}
use go_mini_gateway.RateLimit.TokenBucket
use go_mini_gateway.RateLimit.TokenBucket.{TokenBucket}
use go_mini_gateway.Proxy.Upstream
use go_mini_gateway.Proxy.Snapshots.{Formats, close_idle_connections}
use go_mini_gateway.Server.Outcome.{Outcome, failed, panicked, done, ◌>>=◌, lift}
use go_mini_gateway.Server.Routes.{RouteRuntime, RuntimeError}
use go_mini_gateway.Server.Runtime.{MainHandler, RuntimeBundle, build_runtime}
use go_mini_gateway.Server.Admin.{RouteDto, route_dtos}

pub record Server : Type 0 where
  pub http_addr : Text
  pub admin_http_addr : Option Text
  pub main_handler : MainHandler
  pub config_path : Text
  pub current_config : Config
  pub routes : List RouteRuntime
  pub proxy_handlers : List Upstream.Handler
  pub rate_limiters : List (Option TokenBucket)
  pub global_rate_limiter : Option TokenBucket
  pub global_concurrency_limiter : Option Limiter
  pub admin_enabled : Bool
  pub admin_token : Text
  pub metrics_require_token : Bool
  pub pprof_enabled : Bool

pub data ReloadError : Type 0 where
  no_config_path : ReloadError
  load_failed : LoadError → ReloadError
  addr_changed shutdown_timeout_changed admin_enabled_changed admin_addr_changed : ReloadError
  admin_token_changed metrics_require_token_changed pprof_enabled_changed : ReloadError
  build_failed : RuntimeError → ReloadError

abbrev pub eq_bool : Bool → Bool → Bool
eq_bool true b = b
eq_bool false b = not b

abbrev pub or_no_text : Option Text → Text
or_no_text none = []
or_no_text (some t) = t

-- `if b { return e }`, and one check before the following ones.
abbrev pub fail_if : Bool → ReloadError → Option ReloadError
fail_if b e = if b then some e else none

infixr 5 ◌>>◌
abbrev pub ◌>>◌ : Option ReloadError → Option ReloadError → Option ReloadError
none >> k = k
some e >> k = some e

unfoldable pub new_admin_addr : Config → Text
new_admin_addr c = if c.admin.enabled then c.admin.addr else []

unfoldable pub validate_reload_config : Server → Config → Option ReloadError
unfolding Durations.addr new_admin_addr text_eq
validate_reload_config s c =
    fail_if (not (text_eq (Durations.addr c) s.http_addr)) addr_changed
    >> (fail_if (not (text_eq c.server.shutdown_timeout s.current_config.server.shutdown_timeout))
          shutdown_timeout_changed
        >> (fail_if (not (eq_bool c.admin.enabled s.admin_enabled)) admin_enabled_changed
            >> (fail_if (not (text_eq (new_admin_addr c) (or_no_text s.admin_http_addr)))
                  admin_addr_changed
                >> (fail_if (not (text_eq c.admin.token s.admin_token)) admin_token_changed
                    >> (fail_if
                          (not (eq_bool c.admin.metrics_require_token s.metrics_require_token))
                          metrics_require_token_changed
                        >> fail_if (not (eq_bool c.admin.pprof_enabled s.pprof_enabled))
                            pprof_enabled_changed)))))

-- `closeRuntimeResources` has closed these; the list of health checkers is always empty.
pub record Released : Type 0 where
  pub proxy_handlers : List Upstream.Handler
  pub rate_limiters : List (Option TokenBucket)

unfoldable pub close_runtime_resources :
    List Upstream.Handler → List (Option TokenBucket) → Released
unfolding close_idle_connections TokenBucket.close
close_runtime_resources proxy_handlers rate_limiters = record {
  proxy_handlers = map close_idle_connections proxy_handlers;
  rate_limiters = map TokenBucket.close rate_limiters;
}

-- `CloseResource`, at the end of Shutdown and Close.
unfoldable pub close_resource : Server → Released
unfolding close_runtime_resources
close_resource s = close_runtime_resources s.proxy_handlers s.rate_limiters

abbrev pub no_resources : Released
no_resources = record { proxy_handlers = []; rate_limiters = [] }

-- What Reload writes under its lock.
unfoldable pub install : Server → Config → RuntimeBundle → Server
install s c b = record s {
  routes = b.routes;
  proxy_handlers = b.proxy_handlers;
  rate_limiters = b.rate_limiters;
  global_rate_limiter = b.global_rate_limiter;
  global_concurrency_limiter = b.global_concurrency_limiter;
  current_config = c;
  main_handler = b.handler;
}

given_path : Text → Outcome ReloadError Text
given_path path = if is_empty path then failed no_config_path else done path

allowed : Config → Option ReloadError → Outcome ReloadError Config
allowed c none = done c
allowed c (some e) = failed e

build_error : {A : Type 0} → Outcome RuntimeError A → Outcome ReloadError A
build_error (failed e) = failed (build_failed e)
build_error panicked = panicked
build_error (done a) = done a

-- The rest of Reload: the errors are returned, and a panic goes on.
unfoldable pub exchange :
    Formats
    → Time
    → Server
    → Outcome ReloadError (Config × RuntimeBundle)
    → Server × Released × Outcome ReloadError (List RouteDto)
unfolding install close_runtime_resources route_dtos
exchange f now s (failed e) = (s, no_resources, failed e)
exchange f now s panicked = (s, no_resources, panicked)
exchange f now s (done (c, b)) = (
  install s c b,
  close_runtime_resources s.proxy_handlers s.rate_limiters,
  done (route_dtos f now b.routes),
)

module _ (accepts : List Text → Text → Bool) (parse_url : Text → Option Url)
    (parse_duration : Text → Option ℤ) where
  -- The state of a server that `NewWithConfigPath` made.
  abbrev pub new_server : Config → Text → RuntimeBundle → Server
  new_server c path b = record {
    http_addr = Durations.addr c;
    admin_http_addr = if c.admin.enabled then some c.admin.addr else none;
    main_handler = b.handler;
    config_path = path;
    current_config = c;
    routes = b.routes;
    proxy_handlers = b.proxy_handlers;
    rate_limiters = b.rate_limiters;
    global_rate_limiter = b.global_rate_limiter;
    global_concurrency_limiter = b.global_concurrency_limiter;
    admin_enabled = c.admin.enabled;
    admin_token = c.admin.token;
    metrics_require_token = c.admin.metrics_require_token;
    pprof_enabled = c.admin.pprof_enabled;
  }

  unfoldable pub new_with_config_path : Config → Text → Outcome RuntimeError Server
  unfolding build_runtime
  new_with_config_path c path = do
    b ← build_runtime accepts parse_url parse_duration c
    done (new_server c path b)

  module _ (read_file : Text → Option Text) (unmarshal : Text → Option Config)
      (lookup_env : Text → Option Text) where
    -- What Reload does before it takes the lock.
    unfoldable pub prepare : Server → Outcome ReloadError (Config × RuntimeBundle)
    unfolding load validate_reload_config build_runtime given_path allowed build_error
    prepare s = do
      path ← given_path s.config_path
      loaded ← lift load_failed (load read_file unmarshal lookup_env parse_url parse_duration path)
      c ← allowed loaded (validate_reload_config s loaded)
      b ← build_error (build_runtime accepts parse_url parse_duration c)
      done (c, b)

    -- The server behind the call, what was closed, and the answer.
    unfoldable pub reload :
        Formats → Time → Server → Server × Released × Outcome ReloadError (List RouteDto)
    unfolding prepare exchange
    reload f now s = exchange f now s (prepare s)
