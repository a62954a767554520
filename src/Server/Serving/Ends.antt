-- ===== src/Server/Serving/Ends.antt =====
-- Each request comes to its end.
use mathlib.Core.List.{Memᴰ}
use go_mini_gateway.Common.{
  ℕ, ◌+◌, ◌≤◌, ◌<◌, ◌≡◌, ◌⊎◌, inl, inr, refl, ap, Text, [], ◌∷◌, arith, length, Option-cases,
}
use go_mini_gateway.Http.{Reply}
use go_mini_gateway.Concurrency.Limiter.{try_acquire}
use go_mini_gateway.Proxy.Handler.{Request}
use go_mini_gateway.Server.Routes.{Handler, Mux}
use go_mini_gateway.Server.Runtime.{MainHandler}
use go_mini_gateway.Server.Serving.{
  Store, Position, at_main, at_route, at_upstream, back, InFlight, Outside, take_token, take_place,
  select_at, finish_at, go_back, advance_main, advance_route, advance,
}

-- The steps that the handler of a route takes at most, with those on the way back.
abbrev pub route_steps : Handler → ℕ
route_steps Handler.ping = 1
route_steps Handler.health = 1
route_steps Handler.version = 1
route_steps (Handler.proxy h) = 2
route_steps (Handler.limit_concurrency name l next) = route_steps next + 2
route_steps (Handler.limit_rate name b next) = route_steps next + 1
route_steps (Handler.with_route_id id next) = route_steps next + 1

abbrev pub mux_steps : Mux → ℕ
mux_steps [] = 0
mux_steps ((pattern_, h) ∷ mux) = route_steps h + mux_steps mux

abbrev pub main_steps : MainHandler → ℕ
main_steps (MainHandler.serve_mux mux) = mux_steps mux + 1
main_steps (MainHandler.with_timeout t next) = main_steps next + 1
main_steps (MainHandler.limit_concurrency name l next) = main_steps next + 2
main_steps (MainHandler.limit_rate name b next) = main_steps next + 1
main_steps (MainHandler.access_log next) = main_steps next + 2

abbrev pub position_steps : Position → ℕ
position_steps (at_main h) = main_steps h
position_steps (at_route h) = route_steps h
position_steps (at_upstream id j) = 1
position_steps (back r) = 0

abbrev pub steps_left : InFlight → ℕ
steps_left q = position_steps q.position + length q.frames

mux_steps-mem :
    (mux : Mux) (p : Text) (h : Handler) → Memᴰ (p, h) mux → route_steps h ≤ mux_steps mux
mux_steps-mem [] p h m = elim m [ ]
mux_steps-mem ((p', h') ∷ mux) p h (Memᴰ.head e) =
    omega (arith, ap (λ (x : Text × Handler). route_steps x.1) e)
mux_steps-mem ((p', h') ∷ mux) p h (Memᴰ.tail m) = omega (arith, mux_steps-mem mux p h m)

take_token-steps :
    (s : Store) (q : InFlight) (name : Text) (p : Position)
    → steps_left (take_token s q name p).1 ≤ position_steps p + length q.frames
unfolding take_token
take_token-steps s q name p = ground arith

take_place-steps :
    (s : Store) (q : InFlight) (name : Text) (p : Position)
    → steps_left (take_place s q name p).1 ≤ position_steps p + length q.frames + 1
unfolding take_place try_acquire
take_place-steps s q name p = ground arith

go_back-steps :
    (s : Store) (q : InFlight) (r : Reply) (o : Outside)
    → q.position ≡ back r
    → (steps_left (go_back s q r q.frames o).1 < steps_left q) ⊎ (q.frames ≡ [])
unfolding go_back
go_back-steps s q r o at = ground arith

module _ (dispatch : Mux → Request → Reply ⊎ Handler) where
  -- The mux hands a request to a handler that was registered, as net/http documents it.
  unfoldable pub IsDispatch : Type 0
  IsDispatch =
      (mux : Mux) (r : Request) (h : Handler)
      → dispatch mux r ≡ inr h
      → (p : Text) × Memᴰ (p, h) mux

  advance_route-steps :
      (s : Store) (q : InFlight) (h : Handler) (o : Outside)
      → steps_left (advance_route dispatch s q h o).1 < route_steps h + length q.frames
  unfolding advance_route select_at
  advance_route-steps s q Handler.ping o = omega arith
  advance_route-steps s q Handler.health o = omega arith
  advance_route-steps s q Handler.version o = omega arith
  advance_route-steps s q (Handler.proxy h) o = ground arith
  advance_route-steps s q (Handler.with_route_id id h) o = omega arith
  advance_route-steps s q (Handler.limit_rate n _ h) o =
      omega (arith, take_token-steps s q n (at_route h))
  advance_route-steps s q (Handler.limit_concurrency n _ h) o =
      omega (arith, take_place-steps s q n (at_route h))

  advance_main-steps :
      (s : Store) (q : InFlight) (h : MainHandler)
      → IsDispatch
      → steps_left (advance_main dispatch s q h).1 < main_steps h + length q.frames
  unfolding advance_main IsDispatch
  advance_main-steps s q (MainHandler.access_log h) d = omega arith
  advance_main-steps s q (MainHandler.limit_rate n _ h) d =
      omega (arith, take_token-steps s q n (at_main h))
  advance_main-steps s q (MainHandler.limit_concurrency n _ h) d =
      omega (arith, take_place-steps s q n (at_main h))
  advance_main-steps s q (MainHandler.with_timeout _ h) d = omega arith
  advance_main-steps s q (MainHandler.serve_mux mux) d = go (dispatch mux q.request) refl
    where
      go :
          (to : Reply ⊎ Handler)
          → dispatch mux q.request ≡ to
          → steps_left (advance_main dispatch s q (MainHandler.serve_mux mux)).1
            < main_steps (MainHandler.serve_mux mux) + length q.frames
      go (inl r) e = rw (e, advance_main) (omega arith)
      go (inr h) e =
          let (p, m) = d mux q.request h e in
          rw (e, advance_main) (omega (arith, mux_steps-mem mux p h m))

  -- With a mux that hands requests to handlers that were registered: whatever the store, the upstream and the
  -- client do, each step of a request brings the number of its steps that are left down, until its answer or
  -- its panic has passed every middleware.
  pub request_ends :
      (s : Store) (q : InFlight) (o : Outside)
      → IsDispatch
      → (steps_left (advance dispatch s q o).1 < steps_left q)
        ⊎ ((r : Reply) × (q.position ≡ back r) × (q.frames ≡ []))
  unfolding advance finish_at
  request_ends s q o d = go q.position refl
    where
      go :
          (position : Position)
          → q.position ≡ position
          → (steps_left (advance dispatch s q o).1 < steps_left q)
            ⊎ ((r : Reply) × (q.position ≡ back r) × (q.frames ≡ []))
      go (at_main h) e =
          inl (rw (e, advance) (advance_main-steps s (record q { position = at_main h }) h d))
      go (at_route h) e =
          inl (rw (e, advance) (advance_route-steps s (record q { position = at_route h }) h o))
      go (at_upstream id j) e = elim (Option-cases (s.proxies id)) [
        | inl none_there ↦ inl (rw (e, none_there, advance) (omega arith))
        | inr (proxy, there) ↦ inl (rw (e, there, advance) (omega arith))
      ]
      go (back r) e = elim (go_back-steps s q r o e) [
        | inl less ↦ inl (rw (e, advance) (omega (arith, less, ap position_steps e)))
        | inr done_ ↦ inr (r, e, done_)
      ]
