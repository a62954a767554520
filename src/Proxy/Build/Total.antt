-- ===== src/Proxy/Build/Total.antt =====
-- The construction of a handler succeeds for good addresses.
use go_mini_gateway.Common.{
  ℕ, ◌+◌, ◌*◌, ◌≡◌, ◌≢◌, refl, pos, or_default, or_default_pos, second, Text, Option, none, some,
  List, [], ◌∷◌, ◌++◌, arith, is_empty, codes, All, ok, ok_of_ne_err, ◌<ℤ◌, Bool-cases, inl, inr,
  if◌then◌else◌,
}
use go_mini_gateway.Url.{Url}
use go_mini_gateway.Health.Checker
use go_mini_gateway.Health.Checker.{Checker, CheckerError}
use go_mini_gateway.Proxy.Upstream.{Upstream, Handler}
use go_mini_gateway.Proxy.Build.{
  Options, UpstreamOptions, ActiveHealthOptions, upstream_id, with_url, build_upstream, build_from,
  effective_upstreams, new_active_health_checker, build_upstreams, new,
}

checker_of_ne_err :
    (r : Checker.Result)
    → ((e : CheckerError) → r ≢ Checker.err e)
    → (c : Checker) × (r ≡ Checker.ok c)
checker_of_ne_err (Checker.ok c) h = (c, refl)
checker_of_ne_err (Checker.err e) h = absurd (h e refl)

module _ (parse : Text → Option Url) where
  -- The text is an address with a scheme and a host.
  abbrev pub HasAddress : Text → Type 0
  HasAddress t = (url : Url) × (parse t ≡ some url) × (url.scheme ≢ []) × (url.host ≢ [])

  checker_made :
      (o : Checker.Options)
      → o.name ≢ []
      → HasAddress o.target
      → pos 0 <ℤ o.interval
      → pos 0 <ℤ o.timeout
      → (c : Checker) × (Checker.new_checker parse o ≡ Checker.ok c)
  unfolding Checker.new_checker
  checker_made o n (url, e, s, h) i t =
      checker_of_ne_err _ (λ x q. ground (arith, n, e, s, h, i, t))

  name_given : (route_id id : Text) → (route_id ++ codes "/" ++ id) ≢ []
  name_given [] id e = cc
  name_given (_ ∷ _) id e = cc

  checker_total :
      (route_id id target : Text) (o : ActiveHealthOptions)
      → HasAddress target
      → (c : Option Checker) × (new_active_health_checker parse route_id id target o ≡ ok c)
  unfolding new_active_health_checker
  checker_total route_id id target o a =
      let i = or_default_pos o.interval (5 * second) (omega arith) in
      let t = or_default_pos o.timeout second (omega arith) in
      let (c, e) =
        checker_made
          (record {
            name = route_id ++ codes "/" ++ id;
            target = target;
            path = if is_empty o.path then codes "/health" else o.path;
            interval = pos (or_default o.interval (5 * second));
            timeout = pos (or_default o.timeout second);
          })
          (name_given route_id id) a (omega (arith, i)) (omega (arith, t)) in
      elim (Bool-cases o.enabled) [
        | inl on ↦ (some (Checker.start c), rw (on, e) refl)
        | inr off ↦ (none, rw off refl)
      ]

  upstream_total :
      (options : Options) (option : UpstreamOptions) (index : ℕ)
      → HasAddress option.url
      → (u : Upstream) × (build_upstream parse options option index ≡ ok u)
  unfolding build_upstream with_url
  upstream_total options option index (url, e, s, h) =
      let (c, ec) =
        checker_total options.route_id (upstream_id option index) option.url options.active_health
          (url, e, s, h) in
      ok_of_ne_err _ (λ x q. ground (arith, e, s, h, ec))

  from_total :
      (options : Options) (index : ℕ) (os : List UpstreamOptions)
      → All (λ o. HasAddress o.url) os
      → (us : List Upstream) × (build_from parse options index os ≡ ok us)
  unfolding build_from
  from_total options index [] a = ([], refl)
  from_total options index (o ∷ os) (x, a) =
      let (u, e) = upstream_total options o index x in
      let (us, e') = from_total options (index + 1) os a in (u ∷ us, rw (e, e') refl)

  -- With upstreams that have addresses, `New` returns a handler.
  pub new_total :
      (options : Options)
      → options.upstreams ≢ []
      → All (λ o. HasAddress o.url) options.upstreams
      → (h : Handler) × (new parse options ≡ ok h)
  unfolding new build_upstreams effective_upstreams
  new_total options n a =
      let (us, e) = from_total options 0 options.upstreams a in
      ok_of_ne_err _ (λ x q. ground (arith, e, n))
