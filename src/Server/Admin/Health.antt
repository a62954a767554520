-- ===== src/Server/Admin/Health.antt =====
-- What the health of a route in the administration says about the requests to it.
use go_mini_gateway.Common.{
  ◌≡◌, ◌≢◌, refl, Text, Time, Bool, true, false, not, ◌&&◌, ◌||◌, none, some, List, [], ◌∷◌, map,
  All, length, ltb, arith,
}
use go_mini_gateway.Health.Checker
use go_mini_gateway.Health.Checker.{Checker, available}
use go_mini_gateway.Proxy.Upstream.{Upstream, Handler, try_acquire}
use go_mini_gateway.Proxy.Snapshots.{Formats, snapshot_of, upstream_snapshots}
use go_mini_gateway.Server.Admin.{health_of, healths_of, any_available, health_dto}

abbrev pub has_checker : Upstream → Bool
has_checker u = elim u.active_health [ none ↦ false | some _ ↦ true ]

-- The upstream has a checker, and it does not stop requests.
abbrev pub is_up : Upstream → Bool
is_up u = has_checker u && available u.active_health

abbrev pub any : (Upstream → Bool) → List Upstream → Bool
any p [] = false
any p (u ∷ us) = p u || any p us

module _ (f : Formats) (now : Time) where
  some_item :
      (us : List Upstream)
      → ltb 0 (length (healths_of (map (snapshot_of f now) us))) ≡ any has_checker us
  unfolding healths_of health_of snapshot_of
  some_item [] = refl
  some_item (u ∷ us) = ground (arith, some_item us)

  available_item :
      (us : List Upstream) → any_available (healths_of (map (snapshot_of f now) us)) ≡ any is_up us
  unfolding healths_of health_of snapshot_of any_available available Checker.snapshot
  available_item [] = refl
  available_item (u ∷ us) = ground (arith, available_item us)

  -- The administration calls a route healthy exactly when none of its upstreams has active health, or one
  -- that has it is unchecked or healthy.
  health_dto_lem :
      (h : Handler) (id target : Text)
      → (health_dto id target (upstream_snapshots f h now)).healthy
        ≡ (not (any has_checker h.upstreams) || any is_up h.upstreams)
  unfolding health_dto upstream_snapshots
  health_dto_lem h id target = ground (arith, some_item h.upstreams, available_item h.upstreams)

  down_refuses :
      (us : List Upstream)
      → All (λ u. u.active_health ≢ none) us
      → any is_up us ≡ false
      → All (λ u. (t : Time) → (try_acquire u t).1 ≡ false) us
  unfolding try_acquire
  down_refuses [] a h = tt
  down_refuses (u ∷ us) (n, a) h = (λ t. ground (arith, n), down_refuses us a (ground arith))

  -- If every upstream of a route has active health and the administration calls the route unhealthy, then
  -- every upstream refuses every request.
  pub unhealthy_refuses :
      (h : Handler) (id target : Text)
      → All (λ u. u.active_health ≢ none) h.upstreams
      → (health_dto id target (upstream_snapshots f h now)).healthy ≡ false
      → All (λ u. (t : Time) → (try_acquire u t).1 ≡ false) h.upstreams
  unhealthy_refuses h id target a e =
      let q = health_dto_lem h id target in down_refuses h.upstreams a (ground arith)
