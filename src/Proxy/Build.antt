-- ===== src/Proxy/Build.antt =====
-- The construction of the upstreams of a route: `buildUpstreams`, `buildUpstream` and
-- `newActiveHealthChecker` of internal/proxy/upstream.go. `url.Parse` is a parameter. The text of an error
-- is left out; its case is kept.
pub mod Laws
pub mod Total
mod Examples
use go_mini_gateway.Common.{
  ℕ, zero, suc, ◌+◌, ◌-◌, ◌*◌, ◌==◌, ℤ, pos, pos_part, leb_ℤ, or_default, second, Text, Time, Bool,
  true, false, not, ◌&&◌, ◌||◌, Option, none, some, List, [], ◌∷◌, ◌++◌, length, codes, is_empty,
  itoa, trim_space, if◌then◌else◌, Result, ok, err, ◌>>=◌,
}
use go_mini_gateway.Url.{Url}
use go_mini_gateway.Health.Checker
use go_mini_gateway.Health.Checker.{Checker, CheckerError}
use go_mini_gateway.Proxy.Passive.{PassiveHealthOptions, new_passive_health_state}
use go_mini_gateway.Proxy.Breaker.{CircuitBreakerOptions, new_circuit_breaker_state}
use go_mini_gateway.Proxy.Upstream.{Upstream, Handler}

pub record UpstreamOptions : Type 0 where
  pub id : Text
  pub url : Text

pub record ActiveHealthOptions : Type 0 where
  pub enabled : Bool
  pub path : Text
  pub interval : ℤ
  pub timeout : ℤ

pub record Options : Type 0 where
  pub route_id : Text
  pub target : Text
  pub upstreams : List UpstreamOptions
  pub strip_prefix : Text
  pub active_health : ActiveHealthOptions
  pub passive_health : PassiveHealthOptions
  pub circuit_breaker : CircuitBreakerOptions

pub data BuildError : Type 0 where
  no_target : BuildError
  invalid_url incomplete_url : Text → Text → BuildError
  checker_failed : Text → CheckerError → BuildError

-- The checker's goroutine runs when it is returned.
abbrev started : Text → Checker.Result → Result BuildError (Option Checker)
started id (Checker.ok c) = ok (some (Checker.start c))
started id (Checker.err e) = err (checker_failed id e)

-- `strings.TrimSpace(option.ID)`, or "upstream-%d" with the place, counted from 1.
unfoldable pub upstream_id : UpstreamOptions → ℕ → Text
upstream_id option index =
    let id = trim_space option.id in
    if is_empty id then codes "upstream-" ++ itoa (index + 1) else id

-- A route with no upstreams has its target as the only one.
unfoldable pub effective_upstreams : Options → List UpstreamOptions
effective_upstreams options =
    if length options.upstreams == 0 && not (is_empty options.target)
    then record { id = codes "default"; url = options.target } ∷ []
    else options.upstreams

module _ (parse : Text → Option Url) where
  unfoldable pub new_active_health_checker :
      Text → Text → Text → ActiveHealthOptions → Result BuildError (Option Checker)
  new_active_health_checker route_id upstream_id target options =
      if not options.enabled
      then ok none
      else started upstream_id (
          Checker.new_checker parse (record {
            name = route_id ++ codes "/" ++ upstream_id;
            target = target;
            path = if is_empty options.path then codes "/health" else options.path;
            interval = pos (or_default options.interval (5 * second));
            timeout = pos (or_default options.timeout second);
          }))

  with_url : Options → UpstreamOptions → Text → Option Url → Result BuildError Upstream
  unfolding new_active_health_checker
  with_url options option id none = err (invalid_url id option.url)
  with_url options option id (some url) =
      if is_empty url.scheme || is_empty url.host then err (incomplete_url id option.url) else do
        checker ← new_active_health_checker options.route_id id option.url options.active_health
        ok (record {
          id = id;
          url = url;
          active_health = checker;
          passive_health = new_passive_health_state options.route_id id options.passive_health;
          circuit_breaker = new_circuit_breaker_state options.route_id id options.circuit_breaker;
        })

  unfoldable pub build_upstream : Options → UpstreamOptions → ℕ → Result BuildError Upstream
  unfolding with_url upstream_id
  build_upstream options option index =
      with_url options option (upstream_id option index) (parse option.url)

  build_from : Options → ℕ → List UpstreamOptions → Result BuildError (List Upstream)
  unfolding build_upstream
  build_from options index [] = ok []
  build_from options index (o ∷ os) = do
    item ← build_upstream options o index
    items ← build_from options (index + 1) os
    ok (item ∷ items)

  unfoldable pub build_upstreams : Options → Result BuildError (List Upstream)
  unfolding build_from effective_upstreams
  build_upstreams options =
      let upstreams = effective_upstreams options in
      if length upstreams == 0 then err no_target else build_from options 0 upstreams

  -- `New`, without the transport.
  unfoldable pub new : Options → Result BuildError Handler
  unfolding build_upstreams
  new options = do
    upstreams ← build_upstreams options
    ok (record {
      route_id = options.route_id;
      strip_prefix = options.strip_prefix;
      upstreams = upstreams;
      next_index = 0;
    })
