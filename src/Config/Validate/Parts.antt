-- ===== src/Config/Validate/Parts.antt =====
-- What each validation helper accepts: limits, administration, addresses, health and breaker options.
use go_mini_gateway.Common.{
  ℕ, ◌≡◌, ◌↔◌, refl, ℤ, pos, leb_ℤ, ltb_ℤ, ◌<ℤ◌, Text, Bool, true, false, not, Option, none, some,
  [], ◌∷◌, has_prefix, codes, is_empty, arith, if◌then◌else◌,
}
use go_mini_gateway.Url.{Url}
use go_mini_gateway.Config.Types.{
  AdminConfig, HealthCheckConfig, PassiveHealthConfig, CircuitBreakerConfig,
}
use go_mini_gateway.Config.Validate.{
  Scope, ConfigError, fail_if, ◌>>◌, validate_rate_limit, validate_max_concurrency, validate_admin,
  target_error, positive_duration, health_durations, validate_target_url, validate_health_check,
  validate_passive_health, validate_circuit_breaker,
}
use go_mini_gateway.Config.Validate.Spec.{
  IsThreshold, IsRateLimit, IsConcurrency, IsAdmin, IsAddress, IsHealthCheck, IsPassiveHealth,
  IsCircuitBreaker,
}

pub IsRateLimit-iff :
    (s : Scope) (rps burst : ℤ) → (validate_rate_limit s rps burst ≡ none) ↔ IsRateLimit rps burst
unfolding validate_rate_limit
IsRateLimit-iff s rps burst = (
  λ h. record {
    rps_nonneg = ground arith;
    rps_small = ground arith;
    burst_nonneg = ground arith;
    burst_small = ground arith;
    burst_needs_rps = ground arith;
  },
  λ h.
      let a = h.rps_nonneg in
      let b = h.rps_small in
      let c = h.burst_nonneg in let d = h.burst_small in let e = h.burst_needs_rps in ground arith,
)

pub IsConcurrency-iff :
    (s : Scope) (n : ℤ) → (validate_max_concurrency s n ≡ none) ↔ IsConcurrency n
unfolding validate_max_concurrency
IsConcurrency-iff s n = ground arith

pub IsAdmin-iff : (c : AdminConfig) → (validate_admin c ≡ none) ↔ IsAdmin c
unfolding validate_admin
IsAdmin-iff c = (
  λ h. record { token_for_metrics = ground arith; addr = ground arith; token = ground arith },
  λ h. let a = h.token_for_metrics in let b = h.addr in let d = h.token in ground arith,
)

pub both : (a b : Option ConfigError) → ((a >> b) ≡ none) ↔ ((a ≡ none) × (b ≡ none))
both none b = ground arith
both (some e) b = ground arith

when_enabled :
    (b : Bool) (x : Option ConfigError)
    → ((if not b then none else x) ≡ none) ↔ (b ≡ true → x ≡ none)
when_enabled true x = (λ h _. h, λ h. h refl)
when_enabled false x = (λ h e. cc, λ h. refl)

fail_unless : (b : Bool) (e : ConfigError) → (fail_if (not b) e ≡ none) ↔ (b ≡ true)
fail_unless b e = ground arith

rooted→some :
    (p : Text) (e : ConfigError) → has_prefix p (codes "/") ≡ true → fail_if (is_empty p) e ≡ none
unfolding has_prefix
rooted→some [] e h = cc
rooted→some (_ ∷ _) e h = refl

-- The two checks of a threshold, wherever they stand.
IsThreshold-iff :
    (e f : ConfigError) (n : ℤ)
    → ((fail_if (leb_ℤ n (pos 0)) e ≡ none) × (fail_if (ltb_ℤ (pos 100000) n) f ≡ none))
      ↔ IsThreshold n
IsThreshold-iff e f n = ground arith

positive_iff :
    (e f : ConfigError) (o : Option ℤ)
    → (positive_duration e f o ≡ none) ↔ ((n : ℤ) × (o ≡ some n) × (pos 0 <ℤ n))
unfolding positive_duration
positive_iff e f none = (λ h. cc, λ (n, h, _). cc)
positive_iff e f (some d) = (λ h. (d, refl, ground arith), λ (n, h, l). ground arith)

-- The durations of a health check.
durations_iff :
    (r : ℕ) (i t : Option ℤ)
    → (health_durations r i t ≡ none)
      ↔ ((n m : ℤ) × (i ≡ some n) × (t ≡ some m) × (pos 0 <ℤ m) × (m <ℤ n))
unfolding health_durations
durations_iff r none t = (λ h. cc, λ (n, m, h, _, _, _). cc)
durations_iff r (some i) none = (λ h. cc, λ (n, m, _, h, _, _). cc)
durations_iff r (some i) (some t) =
    (λ h. (i, t, refl, refl, ground arith, ground arith), λ (n, m, a, b, l, k). ground arith)

module _ (parse_url : Text → Option Url) (parse_duration : Text → Option ℤ) where
  pub address_iff :
      (e f : ConfigError) (t : Text)
      → (validate_target_url parse_url parse_duration e f t ≡ none) ↔ IsAddress parse_url t
  unfolding validate_target_url target_error
  address_iff e f t = ground arith

  pub IsHealthCheck-iff :
      (r : ℕ) (c : HealthCheckConfig)
      → (validate_health_check parse_url parse_duration r c ≡ none)
        ↔ (c.enabled ≡ true → IsHealthCheck parse_duration c)
  unfolding validate_health_check
  IsHealthCheck-iff r c = (
    λ h on.
        let (a, h1) = (both _ _).0 ((when_enabled c.enabled _).0 h on) in
        let (b, h2) = (both _ _).0 h1 in
        let (n, m, i, t, l, k) = (durations_iff r _ _).0 h2 in
        record {
          path = (fail_unless _ _).0 b;
          interval = n;
          timeout = m;
          interval_is = i;
          timeout_is = t;
          timeout_pos = l;
          timeout_below = k;
        },
    λ h. (when_enabled c.enabled _).1 (λ on.
        let w = h on in
        let p = w.path in
        (both _ _).1 (
          rooted→some c.path _ p,
          (both _ _).1 (
            (fail_unless _ _).1 p,
            (durations_iff r _ _).1 (
              w.interval, w.timeout, w.interval_is, w.timeout_is, w.timeout_pos, w.timeout_below,
            ),
          ),
        )),
  )

  pub IsPassiveHealth-iff :
      (r : ℕ) (c : PassiveHealthConfig)
      → (validate_passive_health parse_url parse_duration r c ≡ none)
        ↔ (c.enabled ≡ true → IsPassiveHealth parse_duration c)
  unfolding validate_passive_health
  IsPassiveHealth-iff r c = (
    λ h on.
        let (a, h1) = (both _ _).0 ((when_enabled c.enabled _).0 h on) in
        let (b, h2) = (both _ _).0 h1 in
        let (d, h3) = (both _ _).0 h2 in
        let (e, h4) = (both _ _).0 h3 in
        record {
          failures = (IsThreshold-iff _ _ c.failure_threshold).0 (a, d);
          successes = (IsThreshold-iff _ _ c.success_threshold).0 (b, e);
          duration = (positive_iff _ _ _).0 h4;
        },
    λ h. (when_enabled c.enabled _).1 (λ on.
        let w = h on in
        let (a, d) = (IsThreshold-iff _ _ c.failure_threshold).1 w.failures in
        let (b, e) = (IsThreshold-iff _ _ c.success_threshold).1 w.successes in
        let k = (positive_iff _ _ _).1 w.duration in
        (both _ _).1 (a, (both _ _).1 (b, (both _ _).1 (d, (both _ _).1 (e, k))))),
  )

  pub IsCircuitBreaker-iff :
      (r : ℕ) (c : CircuitBreakerConfig)
      → (validate_circuit_breaker parse_url parse_duration r c ≡ none)
        ↔ (c.enabled ≡ true → IsCircuitBreaker parse_duration c)
  unfolding validate_circuit_breaker
  IsCircuitBreaker-iff r c = (
    λ h on.
        let (a, h1) = (both _ _).0 ((when_enabled c.enabled _).0 h on) in
        let (b, h2) = (both _ _).0 h1 in
        let (d, h3) = (both _ _).0 h2 in
        let (e, h4) = (both _ _).0 h3 in
        record {
          failures = (IsThreshold-iff _ _ c.failure_threshold).0 (a, b);
          probes = (IsThreshold-iff _ _ c.half_open_max_requests).0 (d, e);
          duration = (positive_iff _ _ _).0 h4;
        },
    λ h. (when_enabled c.enabled _).1 (λ on.
        let w = h on in
        let (a, b) = (IsThreshold-iff _ _ c.failure_threshold).1 w.failures in
        let (d, e) = (IsThreshold-iff _ _ c.half_open_max_requests).1 w.probes in
        let k = (positive_iff _ _ _).1 w.duration in
        (both _ _).1 (a, (both _ _).1 (b, (both _ _).1 (d, (both _ _).1 (e, k))))),
  )
