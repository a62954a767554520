-- ===== src/Proxy/Build/Laws.antt =====
-- What a handler that was built offers to the selection.
use go_mini_gateway.Common.{
  ℕ, suc, ◌+◌, ◌<◌, ◌≡◌, ◌≢◌, ◌==◌, refl, ap, Text, false, Option, none, some, List, [], ◌∷◌, arith,
  length, All, ok, first_part,
}
use go_mini_gateway.Url.{Url}
use go_mini_gateway.Proxy.Breaker.{CircuitBreaker, CircuitBreakerOptions, new_circuit_breaker_state}
use go_mini_gateway.Proxy.Breaker.Invariant.{new-IsValid}
use go_mini_gateway.Proxy.Upstream.{Upstream, Handler}
use go_mini_gateway.Proxy.Upstream.Acquire.{HasValidBreaker, IsValid}
use go_mini_gateway.Proxy.Build.{
  Options, UpstreamOptions, upstream_id, with_url, build_upstream, build_from, effective_upstreams,
  build_upstreams, new,
}

valid_option :
    (route_id id : Text) (o : CircuitBreakerOptions) (b : Option CircuitBreaker)
    → new_circuit_breaker_state route_id id o ≡ b
    → HasValidBreaker b
valid_option route_id id o none e = tt
valid_option route_id id o (some c) e = new-IsValid route_id id o e

upstream_id-ne : (option : UpstreamOptions) (index : ℕ) → upstream_id option index ≢ []
unfolding upstream_id
upstream_id-ne option index h = ground arith

-- An upstream that can be selected: a name, an address, and a valid breaker or none.
pub record IsUsable (u : Upstream) : Type 0 where
  pub named : u.id ≢ []
  pub scheme : u.url.scheme ≢ []
  pub host : u.url.host ≢ []
  pub breaker : IsValid u

module _ (parse : Text → Option Url) where
  with_url-IsUsable :
      (options : Options) (option : UpstreamOptions) (id : Text) (url : Option Url) {u : Upstream}
      → id ≢ []
      → with_url parse options option id url ≡ ok u
      → IsUsable u
  unfolding with_url
  with_url-IsUsable options option id none n h = cc
  with_url-IsUsable options option id (some url) {u} n h =
      let b = valid_option options.route_id id options.circuit_breaker _ refl in ground (arith, b)

  build_upstream-IsUsable :
      (options : Options) (option : UpstreamOptions) (index : ℕ) {u : Upstream}
      → build_upstream parse options option index ≡ ok u
      → IsUsable u
  unfolding build_upstream
  build_upstream-IsUsable options option index h =
      with_url-IsUsable options option (upstream_id option index) (parse option.url)
        (upstream_id-ne option index) h

  build_from-IsUsable :
      (options : Options) (index : ℕ) (os : List UpstreamOptions) {us : List Upstream}
      → build_from parse options index os ≡ ok us
      → All IsUsable us × (length us ≡ length os)
  unfolding build_from
  build_from-IsUsable options index [] {us} h = let same : us ≡ [] = cc in rw same (tt, refl)
  build_from-IsUsable options index (o ∷ os) {us} h =
      let (item, e, h1) = first_part _ (build_upstream parse options o index) h in
      let (items, e', h2) = first_part _ (build_from parse options (index + 1) os) h1 in
      let (all, count) = build_from-IsUsable options (index + 1) os e' in
      let same : us ≡ item ∷ items = cc in
      rw same ((build_upstream-IsUsable options o index e, all), ap suc count)

  -- A handler that `New` made has at least one upstream, one for each entry of the options, or the target
  -- alone when there is no entry; each has a name and an address with a scheme and a host, and its breaker,
  -- if it is enabled, is valid. The counter stands at 0.
  pub new-IsUsable :
      (options : Options) (h : Handler)
      → new parse options ≡ ok h
      → (0 < length h.upstreams)
        × (length h.upstreams ≡ length (effective_upstreams options))
        × All IsUsable h.upstreams
        × (h.next_index ≡ 0)
  unfolding new build_upstreams
  new-IsUsable options h e =
      let (us, eu, eh) = first_part _ (build_upstreams parse options) e in
      let some_left : (length (effective_upstreams options) == 0) ≡ false = ground arith in
      let (all, count) =
        build_from-IsUsable options 0 (effective_upstreams options) (rw some_left at eu) in
      let same : h.upstreams ≡ us = ground arith in
      (rw same (ground arith), rw same count, rw same all, ground arith)
