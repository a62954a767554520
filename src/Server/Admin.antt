-- ===== src/Server/Admin.antt =====
-- The administration endpoints of internal/server/admin.go, admin_dto.go and pprof.go: which handler stands
-- behind which path, and what the handlers compute. JSON is left out; a handler is its answer.
pub mod Health
mod Examples
use mathlib.Core.Option
use go_mini_gateway.Common.{
  ℕ, ℤ, Text, Time, Bool, true, false, not, ◌&&◌, ◌||◌, Option, none, some, List, [], ◌∷◌, ◌++◌,
  map, is_empty, length, ltb, codes, if◌then◌else◌,
}
use go_mini_gateway.Health.Checker
use go_mini_gateway.Concurrency.Limiter
use go_mini_gateway.Concurrency.Limiter.{Limiter}
use go_mini_gateway.RateLimit.TokenBucket
use go_mini_gateway.RateLimit.TokenBucket.{TokenBucket}
use go_mini_gateway.Proxy.Snapshots.{UpstreamSnapshot, Formats, upstream_snapshots}
use go_mini_gateway.Server.Routes.{RouteRuntime}

pub data AdminHandler : Type 0 where
  admin_routes admin_health admin_stats admin_metrics admin_reload prometheus_metrics : AdminHandler
  pprof : Text → AdminHandler
  admin_auth : AdminHandler → AdminHandler

pprof_names : List Text
pprof_names =
    []
    ∷ codes "cmdline"
    ∷ codes "profile"
    ∷ codes "symbol"
    ∷ codes "trace"
    ∷ codes "allocs"
    ∷ codes "block"
    ∷ codes "goroutine"
    ∷ codes "heap"
    ∷ codes "mutex"
    ∷ codes "threadcreate"
    ∷ []

unfoldable pub register_pprof_routes : List (Text × AdminHandler)
unfolding pprof_names
register_pprof_routes = map (λ n. (codes "/debug/pprof/" ++ n, admin_auth (pprof n))) pprof_names

unfoldable pub register_admin_routes : Bool → Bool → Bool → List (Text × AdminHandler)
unfolding register_pprof_routes
register_admin_routes admin_enabled pprof_enabled metrics_require_token =
    (if admin_enabled
      then (codes "/admin/routes", admin_auth admin_routes)
        ∷ (codes "/admin/health", admin_auth admin_health)
        ∷ (codes "/admin/stats", admin_auth admin_stats)
        ∷ (codes "/admin/metrics", admin_auth admin_metrics)
        ∷ (codes "/admin/reload", admin_auth admin_reload)
        ∷ (if pprof_enabled then register_pprof_routes else [])
      else [])
    ++ (
      codes "/metrics",
      if metrics_require_token then admin_auth prometheus_metrics else prometheus_metrics,
    )
      ∷ []

pub record UpstreamHealthDto : Type 0 where
  pub id : Text
  pub url : Text
  pub health : Checker.Snapshot

pub record HealthDto : Type 0 where
  pub route_id : Text
  pub target : Text
  pub checked : Bool
  pub healthy : Bool
  pub upstreams : List UpstreamHealthDto

-- An upstream without active health is passed over.
health_of : UpstreamSnapshot → List UpstreamHealthDto
health_of u = elim u.active_health [
  | none ↦ []
  | some h ↦ record { id = u.id; url = u.url; health = h } ∷ []
]

healths_of : List UpstreamSnapshot → List UpstreamHealthDto
unfolding health_of
healths_of [] = []
healths_of (u ∷ us) = health_of u ++ healths_of us

-- `item.Checked = item.Checked || snapshot.Checked`, for each of them.
any_checked : List UpstreamHealthDto → Bool
any_checked [] = false
any_checked (u ∷ us) = u.health.checked || any_checked us

-- The loop that ends at the first upstream that is available.
any_available : List UpstreamHealthDto → Bool
any_available [] = false
any_available (u ∷ us) = if not u.health.checked || u.health.healthy then true else any_available us

unfoldable pub health_dto : Text → Text → List UpstreamSnapshot → HealthDto
unfolding healths_of any_checked any_available
health_dto route_id target upstreams =
    let items = healths_of upstreams in
    record {
      route_id = route_id;
      target = target;
      checked = any_checked items;
      healthy = if ltb 0 (length items) then any_available items else true;
      upstreams = items;
    }

pub record RouteDto : Type 0 where
  pub id : Text
  pub prefix : Text
  pub strip_prefix : Text
  pub target : Text
  pub upstreams : List UpstreamSnapshot
  pub rate_limit_rps : ℤ
  pub rate_limit_burst : ℤ
  pub max_concurrency : ℤ
  pub health_check_enabled : Bool
  pub health_check_path : Text

pub record RouteStatusDto : Type 0 where
  pub id : Text
  pub rate_limit : Option TokenBucket.SnapShot
  pub concurrency : Option Limiter.Snapshot

pub record StatusDto : Type 0 where
  pub rate_limit : Option TokenBucket.SnapShot
  pub concurrency : Option Limiter.Snapshot
  pub routes : List RouteStatusDto

rate_snapshot : Option TokenBucket → Option TokenBucket.SnapShot
unfolding TokenBucket.snapshot
rate_snapshot limiter = Option.map (λ b. TokenBucket.snapshot (some b)) limiter

concurrency_snapshot : Option Limiter → Option Limiter.Snapshot
unfolding Limiter.snapshot
concurrency_snapshot limiter = Option.map (λ l. Limiter.snapshot (some l)) limiter

-- The field health of a route is left out: no route has a checker of its own.
unfoldable pub status_dto : Option TokenBucket → Option Limiter → List RouteRuntime → StatusDto
unfolding rate_snapshot concurrency_snapshot
status_dto global_rate_limiter global_concurrency_limiter routes = record {
  rate_limit = rate_snapshot global_rate_limiter;
  concurrency = concurrency_snapshot global_concurrency_limiter;
  routes =
      map {B = RouteStatusDto}
        (λ r. record {
          id = r.id;
          rate_limit = rate_snapshot r.rate_limiter;
          concurrency = concurrency_snapshot r.concurrency_limiter;
        })
        routes;
}

module _ (f : Formats) (now : Time) where
  route_dto : RouteRuntime → RouteDto
  unfolding upstream_snapshots
  route_dto r = record {
    id = r.id;
    prefix = r.prefix;
    strip_prefix = r.strip_prefix;
    target = r.target;
    upstreams = upstream_snapshots f r.proxy_handler now;
    rate_limit_rps = r.rate_limit_rps;
    rate_limit_burst = r.rate_limit_burst;
    max_concurrency = r.max_concurrency;
    health_check_enabled = r.health_check_enabled;
    health_check_path = r.health_check_path;
  }

  unfoldable pub route_dtos : List RouteRuntime → List RouteDto
  unfolding route_dto
  route_dtos routes = map route_dto routes

  unfoldable pub health_dtos : List RouteRuntime → List HealthDto
  unfolding health_dto upstream_snapshots
  health_dtos routes =
      map (λ r. health_dto r.id r.target (upstream_snapshots f r.proxy_handler now)) routes
