-- ===== src/Server/Serving/Named.antt =====
-- The route id that a request carries through the handler of its route.
use go_mini_gateway.Common.{
  ◌≡◌, ◌≢◌, ◌⊎◌, inl, inr, refl, ap, ◌∙◌, ℕ, Text, Time, List, [], ◌∷◌, arith, Option-cases,
}
use go_mini_gateway.Http.{Reply}
use go_mini_gateway.Proxy.Upstream
use go_mini_gateway.Proxy.Upstream.{select_upstream}
use go_mini_gateway.Proxy.Handler.{Request}
use go_mini_gateway.Server.Recorder.{StatusRecorder, write_header, set_route_id}
use go_mini_gateway.Server.Routes.{Handler, Mux}
use go_mini_gateway.Server.Serving.{
  Store, InFlight, Outside, Position, at_main, at_route, at_upstream, back, take_token, take_place,
  select_at, forward, finish_at, advance_route, advance,
}
use go_mini_gateway.Server.Serving.Quiet.{go_back-recorder, go_back-position}

-- No further route id is set inside.
abbrev pub IsPlain : Handler → Type 0
IsPlain Handler.ping = Unit
IsPlain Handler.health = Unit
IsPlain Handler.version = Unit
IsPlain (Handler.with_route_id _ _) = ⊥
IsPlain (Handler.limit_rate _ _ next) = IsPlain next
IsPlain (Handler.limit_concurrency _ _ next) = IsPlain next
IsPlain (Handler.proxy _) = Unit

-- At the handler that sets this id, or behind it, with the id in the recorder.
abbrev Names : Text → Handler → StatusRecorder → Type 0
Names id Handler.ping r = r.route_id ≡ id
Names id Handler.health r = r.route_id ≡ id
Names id Handler.version r = r.route_id ≡ id
Names id (Handler.with_route_id i next) r = (i ≡ id) × IsPlain next
Names id (Handler.limit_rate _ _ next) r = (r.route_id ≡ id) × IsPlain next
Names id (Handler.limit_concurrency _ _ next) r = (r.route_id ≡ id) × IsPlain next
Names id (Handler.proxy _) r = r.route_id ≡ id

abbrev pub Bears : Text → Position → StatusRecorder → Type 0
Bears id (at_main _) r = ⊥
Bears id (at_route h) r = Names id h r
Bears id (at_upstream _ _) r = r.route_id ≡ id
Bears id (back _) r = r.route_id ≡ id

abbrev pub IsNamed : Text → InFlight → Type 0
IsNamed id q = Bears id q.position q.recorder

module _ (id : Text) (given : id ≢ []) where
  Names-of : (h : Handler) (r : StatusRecorder) → IsPlain h → r.route_id ≡ id → Names id h r
  Names-of Handler.ping r p e = e
  Names-of Handler.health r p e = e
  Names-of Handler.version r p e = e
  Names-of (Handler.with_route_id i next) r p e = absurd p
  Names-of (Handler.limit_rate _ _ next) r p e = (e, p)
  Names-of (Handler.limit_concurrency _ _ next) r p e = (e, p)
  Names-of (Handler.proxy _) r p e = e

  set_route_id_lem : (r : StatusRecorder) → (set_route_id r id).route_id ≡ id
  unfolding set_route_id
  set_route_id_lem r = ground (arith, given)

  forward-route_id :
      (r : StatusRecorder) (statuses : List ℕ) → (forward r statuses).route_id ≡ r.route_id
  unfolding forward write_header
  forward-route_id r [] = refl
  forward-route_id r (s ∷ ss) = forward-route_id (write_header r s).0 ss ∙ ground arith

  take_token-IsNamed :
      (s : Store) (q : InFlight) (n : Text) (next : Handler)
      → IsPlain next
      → q.recorder.route_id ≡ id
      → IsNamed id (take_token s q n (at_route next)).1
  unfolding take_token
  take_token-IsNamed s q n next p e = ground (arith, Names-of next q.recorder p e)

  take_place-IsNamed :
      (s : Store) (q : InFlight) (n : Text) (next : Handler)
      → IsPlain next
      → q.recorder.route_id ≡ id
      → IsNamed id (take_place s q n (at_route next)).1
  unfolding take_place
  take_place-IsNamed s q n next p e = ground (arith, Names-of next q.recorder p e)

  select_at-IsNamed :
      (s : Store) (q : InFlight) (i : Text) (h : Upstream.Handler) (clock : ℕ → Time)
      → q.recorder.route_id ≡ id
      → IsNamed id (select_at s q i h clock).1
  unfolding select_at
  select_at-IsNamed s q i h clock e = elim (Option-cases (select_upstream h clock).1) [
    | inl none_left ↦ rw (none_left, select_at) e
    | inr (j, taken) ↦ rw (taken, select_at) e
  ]

  module _ (dispatch : Mux → Request → Reply ⊎ Handler) where
    advance_route-IsNamed :
        (s : Store) (q : InFlight) (h : Handler) (o : Outside)
        → Names id h q.recorder
        → IsNamed id (advance_route dispatch s q h o).1
    unfolding advance_route
    advance_route-IsNamed s q Handler.ping o e = e
    advance_route-IsNamed s q Handler.health o e = e
    advance_route-IsNamed s q Handler.version o e = e
    advance_route-IsNamed s q (Handler.with_route_id i next) o (e, p) =
        Names-of next (set_route_id q.recorder i) p
          (ap (λ j. (set_route_id q.recorder j).route_id) e ∙ set_route_id_lem q.recorder)
    advance_route-IsNamed s q (Handler.limit_rate n _ next) o (e, p) =
        take_token-IsNamed s q n next p e
    advance_route-IsNamed s q (Handler.limit_concurrency n _ next) o (e, p) =
        take_place-IsNamed s q n next p e
    advance_route-IsNamed s q (Handler.proxy g) o e = elim (Option-cases (s.proxies g.route_id)) [
      | inl none_there ↦ rw (none_there, advance_route) e
      | inr (h, there) ↦ rw (there, advance_route) (select_at-IsNamed s q g.route_id h o.clock e)
    ]

    -- Each step of a request keeps the route id, once the handler of its route was reached.
    pub advance-IsNamed :
        (s : Store) (q : InFlight) (o : Outside)
        → IsNamed id q
        → IsNamed id (advance dispatch s q o).1
    unfolding advance finish_at
    advance-IsNamed s q o b = go q.position refl b
      where
        go :
            (p : Position)
            → q.position ≡ p
            → Bears id p q.recorder
            → IsNamed id (advance dispatch s q o).1
        go (at_main m) e b' = absurd b'
        go (at_route h) e b' =
            rw (e, advance) (advance_route-IsNamed s (record q { position = at_route h }) h o b')
        go (at_upstream i j) e b' = elim (Option-cases (s.proxies i)) [
          | inl none_there ↦ rw (e, none_there, advance) b'
          | inr (g, there) ↦ rw (e, there, advance) (forward-route_id q.recorder o.early ∙ b')
        ]
        go (back r) e b' =
            rw
              (
                e,
                advance,
                go_back-position dispatch s q r q.frames o,
                go_back-recorder dispatch s q r q.frames o,
              )
              (rw e b')
