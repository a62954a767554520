-- ===== src/Server/Routes.antt =====
-- The routes of internal/server/route_runtime.go. A handler is the value of its closure: what it wraps and
-- with which limiter. The patterns of a `http.ServeMux` are a list; whether the mux takes one more pattern or
-- panics is a parameter, as are `url.Parse` and `time.ParseDuration`. Log lines are left out.
pub mod Patterns
pub mod Total
use go_mini_gateway.Common.{
  ◌==◌, ℤ, pos, leb_ℤ, map, Text, Bool, true, false, not, ◌&&◌, Option, none, some, List, [], ◌∷◌,
  ◌++◌, is_empty, text_eq, codes, trim_suffix, if◌then◌else◌,
}
use go_mini_gateway.Url.{Url}
use go_mini_gateway.Config.Types.{RouteConfig}
use go_mini_gateway.Concurrency.Limiter.{Limiter, new_limiter}
use go_mini_gateway.RateLimit.TokenBucket
use go_mini_gateway.RateLimit.TokenBucket.{TokenBucket, Created, new_token_bucket}
use go_mini_gateway.Proxy.Upstream
use go_mini_gateway.Proxy.Build
use go_mini_gateway.Server.Options.{
  to_proxy_active_health_options, to_proxy_passive_health_options, to_proxy_circuit_breaker_options,
  to_proxy_upstream_options,
}
use go_mini_gateway.Server.Outcome.{Outcome, failed, panicked, done, ◌>>=◌, lift, given}

pub data Handler : Type 0 where
  ping health version : Handler
  proxy : Upstream.Handler → Handler
  limit_concurrency : Text → Option Limiter → Handler → Handler
  limit_rate : Text → Option TokenBucket → Handler → Handler
  with_route_id : Text → Handler → Handler

pub data RuntimeError : Type 0 where
  invalid_request_timeout : RuntimeError
  active_health_failed passive_health_failed circuit_breaker_failed : Text → RuntimeError
  proxy_failed : Text → Build.BuildError → RuntimeError

-- The patterns, with their handlers; the last one stands first.
abbrev pub Mux : Type 0
Mux = List (Text × Handler)

-- The fields `upstreams` and `healthChecker` are left out: the snapshots of the proxy, which a route always has,
-- stand for the first wherever it is read, and the second is never assigned.
pub record RouteRuntime : Type 0 where
  pub id : Text
  pub prefix : Text
  pub strip_prefix : Text
  pub target : Text
  pub rate_limit_rps : ℤ
  pub rate_limit_burst : ℤ
  pub max_concurrency : ℤ
  pub health_check_enabled : Bool
  pub health_check_path : Text
  pub proxy_handler : Upstream.Handler
  pub rate_limiter : Option TokenBucket
  pub concurrency_limiter : Option Limiter

-- `health_checkers` stays empty: the checkers belong to the upstreams of the proxies.
pub record RegisterResult : Type 0 where
  pub routes : List RouteRuntime
  pub proxy_handlers : List Upstream.Handler
  pub rate_limiters : List (Option TokenBucket)

-- `limitName`, `limiterName`
abbrev pub limit_name : RouteConfig → Text
limit_name route = codes "route:" ++ route.id

unfoldable pub new_route_runtime : RouteConfig → Upstream.Handler → RouteRuntime
new_route_runtime route proxy_handler = record {
  id = route.id;
  prefix = route.prefix;
  strip_prefix = route.strip_prefix;
  target = route.target;
  rate_limit_rps = route.rate_limit_rps;
  rate_limit_burst = route.rate_limit_burst;
  max_concurrency = route.max_concurrency;
  health_check_enabled = (route.health_check).enabled;
  health_check_path = (route.health_check).path;
  proxy_handler = proxy_handler;
  rate_limiter = none;
  concurrency_limiter = none;
}

unfoldable pub apply_route_concurrency_limit :
    Handler → RouteConfig → RouteRuntime → Handler × RouteRuntime
unfolding new_limiter
apply_route_concurrency_limit next route r =
    if leb_ℤ route.max_concurrency (pos 0)
    then (next, r)
    else let limiter = new_limiter (limit_name route) route.max_concurrency in
      (
        Handler.limit_concurrency (limit_name route) limiter next,
        record r { concurrency_limiter = limiter },
      )

-- `NewTokenBucket` may panic.
abbrev pub made : Created → Outcome RuntimeError (Option TokenBucket)
made (Created.created limiter) = done limiter
made Created.panicked = panicked

unfoldable pub apply_route_rate_limit :
    Handler
    → RouteConfig
    → RouteRuntime
    → RegisterResult
    → Outcome RuntimeError (Handler × RouteRuntime × RegisterResult)
apply_route_rate_limit next route r result =
    if leb_ℤ route.rate_limit_rps (pos 0) then done (next, r, result) else do
      limiter ←
          made (new_token_bucket (limit_name route) route.rate_limit_rps route.rate_limit_burst)
      done (
        Handler.limit_rate (limit_name route) limiter next,
        record r { rate_limiter = limiter },
        record result { rate_limiters = result.rate_limiters ++ limiter ∷ [] },
      )

-- The patterns that a prefix is registered under: itself, and without its last slash.
unfoldable pub route_patterns : Text → List Text
unfolding trim_suffix text_eq
route_patterns prefix =
    let exact_path = trim_suffix prefix b'/' in
    if not (is_empty exact_path) && not (text_eq exact_path prefix)
    then prefix ∷ exact_path ∷ []
    else prefix ∷ []

module _ (parse_url : Text → Option Url) (parse_duration : Text → Option ℤ) where
  unfoldable pub new_proxy_handler : RouteConfig → Outcome RuntimeError Upstream.Handler
  unfolding to_proxy_active_health_options to_proxy_passive_health_options
      to_proxy_circuit_breaker_options to_proxy_upstream_options Build.new
  new_proxy_handler route = do
    active_health ←
        given (active_health_failed route.id)
          (to_proxy_active_health_options parse_duration route.health_check)
    passive_health ←
        given (passive_health_failed route.id)
          (to_proxy_passive_health_options parse_duration route.passive_health)
    circuit_breaker ←
        given (circuit_breaker_failed route.id)
          (to_proxy_circuit_breaker_options parse_duration route.circuit_breaker)
    lift (proxy_failed route.id) (
        Build.new parse_url (record {
          route_id = route.id;
          target = route.target;
          upstreams = to_proxy_upstream_options route.upstreams;
          strip_prefix = route.strip_prefix;
          active_health = active_health;
          passive_health = passive_health;
          circuit_breaker = circuit_breaker;
        }))

-- `mux.Handle`, for each pattern; `accepts` says whether the mux, with these patterns, takes the pattern.
module _ (accepts : List Text → Text → Bool) where
  unfoldable pub handle_all : List Text → Handler → Mux → Outcome RuntimeError Mux
  handle_all [] handler mux = done mux
  handle_all (pattern_ ∷ patterns) handler mux =
      let rest = handle_all patterns handler ((pattern_, handler) ∷ mux) in
      if accepts (map (λ e. e.0) mux) pattern_ then rest else panicked

  unfoldable pub register_system_routes : Mux → Outcome RuntimeError Mux
  unfolding handle_all
  register_system_routes mux = do
    mux ← handle_all (codes "/ping" ∷ []) Handler.ping mux
    mux ← handle_all (codes "/health" ∷ []) Handler.health mux
    handle_all (codes "/version" ∷ []) Handler.version mux

  unfoldable pub register_route_patterns : Mux → Text → Handler → Outcome RuntimeError Mux
  unfolding handle_all route_patterns
  register_route_patterns mux prefix handler = handle_all (route_patterns prefix) handler mux

  module _ (parse_url : Text → Option Url) (parse_duration : Text → Option ℤ) where
    -- One round of the loop.
    unfoldable pub register_route :
        Mux × RegisterResult → RouteConfig → Outcome RuntimeError (Mux × RegisterResult)
    unfolding new_proxy_handler new_route_runtime apply_route_concurrency_limit
        apply_route_rate_limit register_route_patterns
    register_route (mux, result) route = do
      proxy_handler ← new_proxy_handler parse_url parse_duration route
      let (limited, r) =
          apply_route_concurrency_limit (Handler.proxy proxy_handler) route
            (new_route_runtime route proxy_handler)
      (handler, r', result') ← apply_route_rate_limit limited route r result
      mux' ← register_route_patterns mux route.prefix (Handler.with_route_id route.id handler)
      done (
        mux',
        record result' {
          routes = result'.routes ++ r' ∷ [];
          proxy_handlers = result'.proxy_handlers ++ proxy_handler ∷ [];
        },
      )

    unfoldable pub register_from :
        Mux × RegisterResult → List RouteConfig → Outcome RuntimeError (Mux × RegisterResult)
    unfolding register_route
    register_from state [] = done state
    register_from state (route ∷ routes) = do
      next ← register_route state route
      register_from next routes

    unfoldable pub register_routes :
        Mux → List RouteConfig → Outcome RuntimeError (Mux × RegisterResult)
    unfolding register_from
    register_routes mux routes =
        register_from (mux, record { routes = []; proxy_handlers = []; rate_limiters = [] }) routes
