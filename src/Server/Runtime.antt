-- ===== src/Server/Runtime.antt =====
-- internal/server/runtime.go.
pub mod Total
use go_mini_gateway.Common.{
  ℤ, pos, ltb_ℤ, leb_ℤ, Text, Bool, true, false, Option, none, some, List, [], ◌∷◌, ◌++◌, codes,
  if◌then◌else◌,
}
use go_mini_gateway.Url.{Url}
use go_mini_gateway.Config.Types.{Config}
use go_mini_gateway.Config.Durations.{request_timeout_duration}
use go_mini_gateway.Concurrency.Limiter.{Limiter, new_limiter}
use go_mini_gateway.RateLimit.TokenBucket.{TokenBucket, new_token_bucket}
use go_mini_gateway.Proxy.Upstream
use go_mini_gateway.Server.Outcome.{Outcome, failed, panicked, done, ◌>>=◌, given}
use go_mini_gateway.Server.Routes.{
  Mux, RouteRuntime, RegisterResult, RuntimeError, made, register_system_routes, register_routes,
}

-- What stands around the mux.
pub data MainHandler : Type 0 where
  serve_mux : Mux → MainHandler
  with_timeout : ℤ → MainHandler → MainHandler
  limit_concurrency : Text → Option Limiter → MainHandler → MainHandler
  limit_rate : Text → Option TokenBucket → MainHandler → MainHandler
  access_log : MainHandler → MainHandler

pub record RuntimeBundle : Type 0 where
  pub handler : MainHandler
  pub routes : List RouteRuntime
  pub proxy_handlers : List Upstream.Handler
  pub rate_limiters : List (Option TokenBucket)
  pub global_rate_limiter : Option TokenBucket
  pub global_concurrency_limiter : Option Limiter

-- `if cfg.Server.MaxConcurrency > 0 { ... }`
unfoldable pub limit_global_concurrency : ℤ → MainHandler → MainHandler × Option Limiter
unfolding new_limiter
limit_global_concurrency n handler =
    let limiter = new_limiter (codes "global") n in
    if ltb_ℤ (pos 0) n
    then (limit_concurrency (codes "global") limiter handler, limiter)
    else (handler, none)

-- `if cfg.Server.RateLimitRPS > 0 { ... }`
unfoldable pub limit_global_rate :
    ℤ
    → ℤ
    → MainHandler
    → List (Option TokenBucket)
    → Outcome RuntimeError (MainHandler × List (Option TokenBucket) × Option TokenBucket)
limit_global_rate rps burst handler limiters =
    if leb_ℤ rps (pos 0) then done (handler, limiters, none) else do
      limiter ← made (new_token_bucket (codes "global") rps burst)
      done (limit_rate (codes "global") limiter handler, limiters ++ limiter ∷ [], limiter)

module _ (accepts : List Text → Text → Bool) (parse_url : Text → Option Url)
    (parse_duration : Text → Option ℤ) where
  unfoldable pub build_runtime : Config → Outcome RuntimeError RuntimeBundle
  unfolding register_system_routes register_routes limit_global_concurrency limit_global_rate
      request_timeout_duration
  build_runtime c = do
    request_timeout ←
        given RuntimeError.invalid_request_timeout (request_timeout_duration parse_duration c)
    mux ← register_system_routes accepts []
    (mux, result) ← register_routes accepts parse_url parse_duration mux c.routes
    let (limited, concurrency_limiter) =
        limit_global_concurrency c.server.max_concurrency
          (with_timeout request_timeout (serve_mux mux))
    (handler, rate_limiters, rate_limiter) ←
        limit_global_rate c.server.rate_limit_rps c.server.rate_limit_burst limited
          result.rate_limiters
    done (record {
      handler = access_log handler;
      routes = result.routes;
      proxy_handlers = result.proxy_handlers;
      rate_limiters = rate_limiters;
      global_rate_limiter = rate_limiter;
      global_concurrency_limiter = concurrency_limiter;
    })
