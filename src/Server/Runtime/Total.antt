-- ===== src/Server/Runtime/Total.antt =====
-- What becomes of a valid configuration.
use go_mini_gateway.Common.{
  ◌≡◌, ◌⊎◌, inl, inr, refl, ◌∙◌, ℤ, pos, leb_ℤ, Text, Bool, Option, none, some_of_ne_none, List, [],
  ◌∷◌, ◌++◌, All, Bool-cases, text_eq, has_prefix, codes,
}
use go_mini_gateway.Url.{Url}
use go_mini_gateway.Config.Types.{Config}
use go_mini_gateway.Config.Durations.{request_timeout_duration}
use go_mini_gateway.Config.Validate.{contains}
use go_mini_gateway.Config.Validate.Spec.{AllDistinct, IsConfig, IsRateLimit}
use go_mini_gateway.RateLimit.TokenBucket.{TokenBucket}
use go_mini_gateway.Server.Outcome.{panicked, done}
use go_mini_gateway.Server.Routes.{
  Handler, Mux, handle_all, register_system_routes, register_routes,
}
use go_mini_gateway.Server.Routes.Patterns.{
  IsLiteral, IsServeMux, system_patterns, all_route_patterns, accepted, behind, AllDistinct-iff,
  plain-IsPlain,
}
use go_mini_gateway.Server.Routes.Total.{made_total, register_from_lem}
use go_mini_gateway.Server.Runtime.{
  MainHandler, RuntimeBundle, limit_global_concurrency, limit_global_rate, build_runtime,
}

ping_literal : IsLiteral (codes "/ping")
unfolding has_prefix
ping_literal = (refl, plain-IsPlain (codes "/ping") refl)

health_literal : IsLiteral (codes "/health")
unfolding has_prefix
health_literal = (refl, plain-IsPlain (codes "/health") refl)

version_literal : IsLiteral (codes "/version")
unfolding has_prefix
version_literal = (refl, plain-IsPlain (codes "/version") refl)

global_rate_total :
    (rps burst : ℤ) (handler : MainHandler) (limiters : List (Option TokenBucket))
    → IsRateLimit rps burst
    → (a : MainHandler × List (Option TokenBucket) × Option TokenBucket) × (limit_global_rate rps
          burst handler limiters
        ≡ done a)
unfolding limit_global_rate
global_rate_total rps burst handler limiters v =
    let (b, e) = made_total (codes "global") rps burst v.rps_small in
    elim (Bool-cases (leb_ℤ rps (pos 0))) [
      | inl off ↦ ((handler, limiters, none), rw off refl)
      | inr on ↦ (
        (MainHandler.limit_rate (codes "global") b handler, limiters ++ b ∷ [], b),
        rw (on, e) refl,
      )
    ]

abbrev system_mux : Mux
system_mux =
    (codes "/version", Handler.version)
    ∷ (codes "/health", Handler.health)
    ∷ (codes "/ping", Handler.ping)
    ∷ []

system_accepted :
    (ps : List Text) → accepted [] (system_patterns ++ ps) ≡ accepted (behind [] system_patterns) ps
unfolding contains text_eq
system_accepted ps = refl

module _ (accepts : List Text → Text → Bool) (m : IsServeMux accepts) where
  system_lem : register_system_routes accepts [] ≡ done system_mux
  unfolding register_system_routes handle_all contains text_eq
  system_lem =
      rw
        (
          m.literal [] (codes "/ping") tt ping_literal,
          m.literal (codes "/ping" ∷ []) (codes "/health") (ping_literal, tt) health_literal,
          m.literal (codes "/health" ∷ codes "/ping" ∷ []) (codes "/version")
              (health_literal, (ping_literal, tt)) version_literal,
        )
        refl

  -- With a mux that takes literal patterns as net/http documents it, a valid configuration with literal
  -- prefixes never makes buildRuntime return an error. It gives a runtime when no pattern of the routes and
  -- of the system's own paths stands twice, and otherwise the mux panics.
  pub build_runtime_lem :
      (parse_url : Text → Option Url) (parse_duration : Text → Option ℤ) (c : Config)
      → IsConfig parse_url parse_duration c
      → All (λ r. IsLiteral r.prefix) c.routes
      → (AllDistinct (system_patterns ++ all_route_patterns c.routes)
          × ((b : RuntimeBundle) × (build_runtime accepts parse_url parse_duration c ≡ done b)))
        ⊎ ((¬ AllDistinct (system_patterns ++ all_route_patterns c.routes))
            × (build_runtime accepts parse_url parse_duration c ≡ panicked))
  unfolding build_runtime register_routes request_timeout_duration
  build_runtime_lem parse_url parse_duration c v l =
      let (t, et) = some_of_ne_none _ v.request_timeout in
      let all = system_patterns ++ all_route_patterns c.routes in
      let h =
        register_from_lem accepts m parse_url parse_duration system_mux
          (record { routes = []; proxy_handlers = []; rate_limiters = [] }) c.routes v.routes l
          (version_literal, (health_literal, (ping_literal, tt))) in
      elim h [
        | inl (a, ((mux, result), e, q)) ↦
            let ((handler, limiters, rate_limiter), er) =
              global_rate_total c.server.rate_limit_rps c.server.rate_limit_burst
                (limit_global_concurrency c.server.max_concurrency
                  (MainHandler.with_timeout t (MainHandler.serve_mux mux))).0
                result.rate_limiters v.rate_limit in
            let bundle : RuntimeBundle = record {
              handler = MainHandler.access_log handler;
              routes = result.routes;
              proxy_handlers = result.proxy_handlers;
              rate_limiters = limiters;
              global_rate_limiter = rate_limiter;
              global_concurrency_limiter =
                  (limit_global_concurrency c.server.max_concurrency
                    (MainHandler.with_timeout t (MainHandler.serve_mux mux))).1;
            } in
            inl (
              (AllDistinct-iff all).0 (system_accepted (all_route_patterns c.routes) ∙ a),
              (bundle, rw (et, system_lem, e, er) refl),
            )
        | inr (a, e) ↦ inr (
          λ d.
              let yes = (AllDistinct-iff all).1 d in
              let no = system_accepted (all_route_patterns c.routes) ∙ a in cc,
          rw (et, system_lem, e) refl,
        )
      ]
