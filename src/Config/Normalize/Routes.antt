-- ===== src/Config/Normalize/Routes.antt =====
-- What `normalize` settles for each route: its addresses, and the defaults of what is enabled.
use go_mini_gateway.Common.{
  ◌≡◌, ◌≢◌, refl, pos, ◌<ℤ◌, Text, Bool, true, false, List, [], ◌∷◌, arith, has_prefix, codes,
  if◌then◌else◌, trim_space, All,
}
use go_mini_gateway.Config.Types.{Config, RouteConfig, UpstreamConfig, HealthCheckConfig}
use go_mini_gateway.Config.Normalize.{
  normalize_target_url, default_upstreams, default_target, normalize_upstreams, normalize_passive,
  normalize_breaker, normalize_health, normalize_route, normalize_routes, normalize, or_text,
}
use go_mini_gateway.Config.Normalize.Prefixes.{IsClosed, normalize_prefix-IsClosed, rooted_lem}

-- What holds of every route behind `normalize`.
pub record IsNormal (c : RouteConfig) : Type 0 where
  -- the prefix begins and ends with a slash
  pub prefix : IsClosed c.prefix
  -- a target comes with an upstream, and upstreams with an address come with a target
  pub served : c.target ≢ [] → c.upstreams ≢ []
  pub aimed :
      (u : UpstreamConfig) (us : List UpstreamConfig)
      → c.upstreams ≡ u ∷ us
      → u.url ≢ []
      → c.target ≢ []
  -- a rate that is on has a burst
  pub burst : pos 0 <ℤ c.rate_limit_rps → pos 0 <ℤ c.rate_limit_burst
  pub passive_failures :
      (c.passive_health).enabled ≡ true → pos 0 <ℤ (c.passive_health).failure_threshold
  pub passive_successes :
      (c.passive_health).enabled ≡ true → pos 0 <ℤ (c.passive_health).success_threshold
  pub passive_duration :
      (c.passive_health).enabled ≡ true → (c.passive_health).unhealthy_duration ≢ []
  pub breaker_failures :
      (c.circuit_breaker).enabled ≡ true → pos 0 <ℤ (c.circuit_breaker).failure_threshold
  pub breaker_probes :
      (c.circuit_breaker).enabled ≡ true → pos 0 <ℤ (c.circuit_breaker).half_open_max_requests
  pub health_path :
      (c.health_check).enabled ≡ true → has_prefix (c.health_check).path (codes "/") ≡ true
  pub health_interval : (c.health_check).enabled ≡ true → (c.health_check).interval ≢ []

served_lem :
    (target : Text) (us : List UpstreamConfig)
    → default_target target (default_upstreams target us) ≢ []
    → default_upstreams target us ≢ []
unfolding default_target default_upstreams
served_lem [] [] h = ground arith
served_lem (_ ∷ _) [] h = ground arith
served_lem t (u ∷ us) h = ground arith

aimed_lem :
    (target : Text) (us : List UpstreamConfig) (v : UpstreamConfig) (vs : List UpstreamConfig)
    → default_upstreams target us ≡ v ∷ vs
    → v.url ≢ []
    → default_target target (default_upstreams target us) ≢ []
unfolding default_target default_upstreams
aimed_lem [] [] v vs h n = cc
aimed_lem (_ ∷ _) [] v vs h n = ground arith
aimed_lem [] (u ∷ us) v vs h n = ground arith
aimed_lem (_ ∷ _) (u ∷ us) v vs h n = ground arith

-- A path that is rooted where the check is enabled.
rooted_if :
    (b : Bool) (x y : HealthCheckConfig)
    → y.enabled ≡ b
    → has_prefix x.path (codes "/") ≡ true
    → (if b then x else y).enabled ≡ true
    → has_prefix (if b then x else y).path (codes "/") ≡ true
rooted_if true x y e h on = h
rooted_if false x y e h on = cc

rooted_health :
    (c : HealthCheckConfig)
    → (normalize_health c).enabled ≡ true
    → has_prefix (normalize_health c).path (codes "/") ≡ true
unfolding normalize_health
rooted_health c =
    rooted_if c.enabled _ c refl (rooted_lem (or_text (trim_space c.path) (codes "/health")))

-- Behind `normalize` every route is in normal form, whatever the file says.
normalize_route-IsNormal : (c : RouteConfig) → IsNormal (normalize_route c)
unfolding normalize_route normalize_passive normalize_breaker normalize_health
normalize_route-IsNormal c = record {
  prefix = normalize_prefix-IsClosed c.prefix;
  served = served_lem (normalize_target_url c.target) (normalize_upstreams 0 c.upstreams);
  aimed = aimed_lem (normalize_target_url c.target) (normalize_upstreams 0 c.upstreams);
  burst = ground arith;
  passive_failures = ground arith;
  passive_successes = ground arith;
  passive_duration = ground arith;
  breaker_failures = ground arith;
  breaker_probes = ground arith;
  health_path = rooted_health c.health_check;
  health_interval = ground arith;
}

routes-IsNormal : (rs : List RouteConfig) → All IsNormal (normalize_routes rs)
unfolding normalize_routes
routes-IsNormal [] = tt
routes-IsNormal (r ∷ rs) = (normalize_route-IsNormal r, routes-IsNormal rs)

-- Behind `normalize` every route is normal.
pub normalize-IsNormal : (c : Config) → All IsNormal (normalize c).routes
unfolding normalize
normalize-IsNormal c = routes-IsNormal c.routes
