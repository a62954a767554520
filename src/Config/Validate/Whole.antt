-- ===== src/Config/Validate/Whole.antt =====
-- `validate` accepts exactly the valid configurations.
use go_mini_gateway.Common.{
  ℕ, ◌+◌, ◌≡◌, ◌≢◌, ◌↔◌, ◌==◌, refl, ℤ, Text, true, not, ◌&&◌, Option, none, List, [], ◌∷◌,
  has_prefix, map, All, is_empty, length, arith,
}
use go_mini_gateway.Url.{Url}
use go_mini_gateway.Config.Types.{Config, RouteConfig}
use go_mini_gateway.Config.Validate.{
  Scope, ConfigError, fail_if, validate_route, validate_routes, validate, strip_not_prefix,
  target_required, invalid_target, incomplete_target, upstreams_required,
}
use go_mini_gateway.Config.Validate.Spec.{AllDistinct, IsRoute, IsConfig}
use go_mini_gateway.Config.Validate.Parts.{
  both, IsRateLimit-iff, IsConcurrency-iff, IsAdmin-iff, address_iff, IsHealthCheck-iff,
  IsPassiveHealth-iff, IsCircuitBreaker-iff,
}
use go_mini_gateway.Config.Validate.Upstreams.{
  given_iff, some_iff, timeout_iff, Fresh, fresh_iff, Fresh-cons, All-Fresh, upstreams_iff,
}

module _ (parse_url : Text → Option Url) (parse_duration : Text → Option ℤ) where
  strip_prefix_iff :
      (p s : Text) (e : ConfigError)
      → (fail_if (not (is_empty s) && not (has_prefix p s)) e ≡ none) ↔ (has_prefix p s ≡ true)
  unfolding has_prefix
  strip_prefix_iff p [] e = ground arith
  strip_prefix_iff p (c ∷ s) e = ground arith

  -- The checks of a route but those of its id and prefix.
  IsRoute-iff :
      (i : ℕ) (c : RouteConfig)
      → (c.id ≢ [])
      → (c.prefix ≢ [])
      → (validate_route parse_url parse_duration i c ≡ none) ↔ IsRoute parse_url parse_duration c
  unfolding validate_route
  IsRoute-iff i c n p = (
    λ h.
        let (a1, h1) = (both _ _).0 h in
        let (a2, h2) = (both (fail_if (length c.upstreams == 0) (upstreams_required i)) _).0 h1 in
        let (a3, h3) = (both _ _).0 h2 in
        let (a4, h4) = (both _ _).0 h3 in
        let (a5, h5) = (both _ _).0 h4 in
        let (a6, h6) = (both _ _).0 h5 in
        let (a7, h7) = (both _ _).0 h6 in
        let (a8, h8) = (both _ _).0 h7 in
        let (a9, h9) = (both _ _).0 h8 in
        let (b, us, ids) = (upstreams_iff parse_url parse_duration i c.upstreams).0 a5 in
        record {
          id = n;
          prefix = p;
          strip_prefix = (strip_prefix_iff c.prefix c.strip_prefix (strip_not_prefix i)).0 a1;
          target = (
            (given_iff c.target (target_required i)).0 a3,
            (address_iff parse_url parse_duration (invalid_target i) (incomplete_target i)
                  c.target).0
                a4,
          );
          upstreams = (b, us);
          upstream_ids = ids;
          rate_limit = (IsRateLimit-iff (Scope.route i) c.rate_limit_rps c.rate_limit_burst).0 a6;
          concurrency = (IsConcurrency-iff (Scope.route i) c.max_concurrency).0 a7;
          health_check = (IsHealthCheck-iff parse_url parse_duration i c.health_check).0 a8;
          passive_health = (IsPassiveHealth-iff parse_url parse_duration i c.passive_health).0 a9;
          circuit_breaker =
              (IsCircuitBreaker-iff parse_url parse_duration i c.circuit_breaker).0 h9;
        },
    λ w.
        let (b, us) = w.upstreams in
        let (t, t') = w.target in
        (both _ _).1 (
          (strip_prefix_iff c.prefix c.strip_prefix (strip_not_prefix i)).1 w.strip_prefix,
          (both _ _).1 (
            (some_iff c.upstreams (upstreams_required i)).1 b,
            (both _ _).1 (
              (given_iff c.target (target_required i)).1 t,
              (both _ _).1 (
                (address_iff parse_url parse_duration (invalid_target i) (incomplete_target i)
                      c.target).1
                    t',
                (both _ _).1 (
                  (upstreams_iff parse_url parse_duration i c.upstreams).1 (b, us, w.upstream_ids),
                  (both _ _).1 (
                    (IsRateLimit-iff (Scope.route i) c.rate_limit_rps c.rate_limit_burst).1
                        w.rate_limit,
                    (both _ _).1 (
                      (IsConcurrency-iff (Scope.route i) c.max_concurrency).1 w.concurrency,
                      (both _ _).1 (
                        (IsHealthCheck-iff parse_url parse_duration i c.health_check).1
                            w.health_check,
                        (both _ _).1 (
                          (IsPassiveHealth-iff parse_url parse_duration i c.passive_health).1
                              w.passive_health,
                          (IsCircuitBreaker-iff parse_url parse_duration i c.circuit_breaker).1
                              w.circuit_breaker,
                        ),
                      ),
                    ),
                  ),
                ),
              ),
            ),
          ),
        ),
  )

  routes_iff :
      (i : ℕ) (ids prefixes : List Text) (cs : List RouteConfig)
      → (validate_routes parse_url parse_duration i ids prefixes cs ≡ none) ↔ (
          All (IsRoute parse_url parse_duration) cs
          × AllDistinct (map (λ r. r.id) cs)
          × AllDistinct (map (λ r. r.prefix) cs)
          × Fresh ids (map (λ r. r.id) cs)
          × Fresh prefixes (map (λ r. r.prefix) cs))
  unfolding validate_routes
  routes_iff i ids prefixes [] = (λ _. (tt, tt, tt, tt, tt), λ _. refl)
  routes_iff i ids prefixes (c ∷ cs) =
      let ih = routes_iff (i + 1) (c.id ∷ ids) (c.prefix ∷ prefixes) cs in
      (
        λ h.
            let (a, h1) = (both _ _).0 h in
            let (b, h2) = (both _ _).0 h1 in
            let (d, h3) = (both _ _).0 h2 in
            let (e, h4) = (both _ _).0 h3 in
            let (f, h5) = (both _ _).0 h4 in
            let (x, y, z, u, v) = ih.0 h5 in
            let (y', u') = (Fresh-cons _ _ _).0 u in
            let (z', v') = (Fresh-cons _ _ _).0 v in
            (
              ((IsRoute-iff i c ((given_iff _ _).0 a) ((given_iff _ _).0 d)).0 f, x),
              (y', y),
              (z', z),
              ((fresh_iff _ _ _).0 b, u'),
              ((fresh_iff _ _ _).0 e, v'),
            ),
        λ ((w, x), (y', y), (z', z), (b, u'), (e, v')). (both _ _).1 (
          (given_iff _ _).1 w.id,
          (both _ _).1 (
            (fresh_iff _ _ _).1 b,
            (both _ _).1 (
              (given_iff _ _).1 w.prefix,
              (both _ _).1 (
                (fresh_iff _ _ _).1 e,
                (both _ _).1 (
                  (IsRoute-iff i c w.id w.prefix).1 w,
                  ih.1 (x, y, z, (Fresh-cons _ _ _).1 (y', u'), (Fresh-cons _ _ _).1 (z', v')),
                ),
              ),
            ),
          ),
        ),
      )

  -- `validate` reports no error exactly for a valid configuration, for any parsers of addresses and
  -- durations.
  pub validate_iff :
      (c : Config)
      → (validate parse_url parse_duration c ≡ none) ↔ IsConfig parse_url parse_duration c
  unfolding validate
  validate_iff c = (
    λ h.
        let (a1, h1) = (both _ _).0 h in
        let (a2, h2) = (both _ _).0 h1 in
        let (a3, h3) = (both _ _).0 h2 in
        let (a4, h4) = (both _ _).0 h3 in
        let (a5, h5) = (both _ _).0 h4 in
        let (a6, h6) = (both _ _).0 h5 in
        let (a7, h7) = (both _ _).0 h6 in
        let (rs, ids, prefixes, _, _) = (routes_iff 0 [] [] c.routes).0 h7 in
        record {
          addr = (given_iff _ _).0 a1;
          request_timeout = (timeout_iff _ _).0 a2;
          shutdown_timeout = (timeout_iff _ _).0 a3;
          rate_limit = (IsRateLimit-iff _ _ _).0 a4;
          concurrency = (IsConcurrency-iff _ _).0 a5;
          admin = (IsAdmin-iff _).0 a6;
          some_route = (some_iff c.routes _).0 a7;
          routes = rs;
          ids = ids;
          prefixes = prefixes;
        },
    λ w. (both _ _).1 (
      (given_iff _ _).1 w.addr,
      (both _ _).1 (
        (timeout_iff _ _).1 w.request_timeout,
        (both _ _).1 (
          (timeout_iff _ _).1 w.shutdown_timeout,
          (both _ _).1 (
            (IsRateLimit-iff _ _ _).1 w.rate_limit,
            (both _ _).1 (
              (IsConcurrency-iff _ _).1 w.concurrency,
              (both _ _).1 (
                (IsAdmin-iff _).1 w.admin,
                (both _ _).1 (
                  (some_iff c.routes _).1 w.some_route,
                  (routes_iff 0 [] [] c.routes).1
                      (w.routes, w.ids, w.prefixes, All-Fresh _, All-Fresh _),
                ),
              ),
            ),
          ),
        ),
      ),
    ),
  )
