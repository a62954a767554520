-- ===== src/Server/Reload/Installed.antt =====
-- What a server is behind a reload that succeeds, and what the answer says, said of the fields of both:
-- Reload and routeDTOsLocked of internal/server/reload.go.
use go_mini_gateway.Common.{◌≡◌, refl, Time, List, [], ◌∷◌, map}
use go_mini_gateway.Config.Types.{Config}
use go_mini_gateway.Proxy.Upstream.{Upstream}
use go_mini_gateway.Proxy.Snapshots.{Formats, snapshot_of, upstream_snapshots}
use go_mini_gateway.Server.Outcome.{Outcome, done}
use go_mini_gateway.Server.Routes.{RouteRuntime}
use go_mini_gateway.Server.Runtime.{RuntimeBundle}
use go_mini_gateway.Server.Admin.{RouteDto, route_dtos}
use go_mini_gateway.Server.Reload.{Server, ReloadError, install}
use go_mini_gateway.Server.Reload.Closing.{Pairwise}

-- What of the server was built from its configuration.
abbrev pub bundle_of : Server → RuntimeBundle
bundle_of s = record {
  handler = s.main_handler;
  routes = s.routes;
  proxy_handlers = s.proxy_handlers;
  rate_limiters = s.rate_limiters;
  global_rate_limiter = s.global_rate_limiter;
  global_concurrency_limiter = s.global_concurrency_limiter;
}

-- The server behind a reload has the configuration and the runtime, and what it was started with.
pub record Installs (s : Server) (c : Config) (b : RuntimeBundle) (s' : Server) : Type 0 where
  pub current_config : s'.current_config ≡ c
  pub runtime : bundle_of s' ≡ b
  pub http_addr : s'.http_addr ≡ s.http_addr
  pub admin_http_addr : s'.admin_http_addr ≡ s.admin_http_addr
  pub config_path : s'.config_path ≡ s.config_path
  pub admin_enabled : s'.admin_enabled ≡ s.admin_enabled
  pub admin_token : s'.admin_token ≡ s.admin_token
  pub metrics_require_token : s'.metrics_require_token ≡ s.metrics_require_token
  pub pprof_enabled : s'.pprof_enabled ≡ s.pprof_enabled

pub install-Installs :
    (s : Server) (c : Config) (b : RuntimeBundle) → Installs s c b (install s c b)
unfolding install
install-Installs s c b = record {
  current_config = refl;
  runtime = refl;
  http_addr = refl;
  admin_http_addr = refl;
  config_path = refl;
  admin_enabled = refl;
  admin_token = refl;
  metrics_require_token = refl;
  pprof_enabled = refl;
}

-- The description of a route has the fields of the route, and the upstreams of its proxy in their order.
pub record Describes (r : RouteRuntime) (d : RouteDto) : Type 0 where
  pub id : d.id ≡ r.id
  pub prefix : d.prefix ≡ r.prefix
  pub strip_prefix : d.strip_prefix ≡ r.strip_prefix
  pub target : d.target ≡ r.target
  pub upstreams : Pairwise (λ u item. item.id ≡ u.id) r.proxy_handler.upstreams d.upstreams
  pub rate_limit_rps : d.rate_limit_rps ≡ r.rate_limit_rps
  pub rate_limit_burst : d.rate_limit_burst ≡ r.rate_limit_burst
  pub max_concurrency : d.max_concurrency ≡ r.max_concurrency
  pub health_check_enabled : d.health_check_enabled ≡ r.health_check_enabled
  pub health_check_path : d.health_check_path ≡ r.health_check_path

-- The answer describes the routes.
abbrev pub Answers : List RouteRuntime → Outcome ReloadError (List RouteDto) → Type 0
Answers routes answer = (ds : List RouteDto) × (answer ≡ done ds) × Pairwise Describes routes ds

module _ (f : Formats) (now : Time) where
  snapshots-ids :
      (us : List Upstream) → Pairwise (λ u item. item.id ≡ u.id) us (map (snapshot_of f now) us)
  unfolding snapshot_of
  snapshots-ids [] = tt
  snapshots-ids (u ∷ us) = (refl, snapshots-ids us)

  route_dtos-Describes :
      (routes : List RouteRuntime) → Pairwise Describes routes (route_dtos f now routes)
  unfolding route_dtos upstream_snapshots
  route_dtos-Describes [] = tt
  route_dtos-Describes (r ∷ routes) = (
    record {
      id = refl;
      prefix = refl;
      strip_prefix = refl;
      target = refl;
      upstreams = snapshots-ids r.proxy_handler.upstreams;
      rate_limit_rps = refl;
      rate_limit_burst = refl;
      max_concurrency = refl;
      health_check_enabled = refl;
      health_check_path = refl;
    },
    route_dtos-Describes routes,
  )

  pub route_dtos-Answers :
      (routes : List RouteRuntime) → Answers routes (done (route_dtos f now routes))
  route_dtos-Answers routes = (route_dtos f now routes, refl, route_dtos-Describes routes)
