-- ===== src/Server/Serving/Quiet.antt =====
-- The steps of a request that write nothing.
use go_mini_gateway.Common.{
  ℕ, ◌≡◌, ◌≢◌, ◌⊎◌, inl, inr, refl, Text, false, List, [], ◌∷◌, arith, Option-cases,
}
use go_mini_gateway.Http.{Reply}
use go_mini_gateway.Proxy.Handler.{Request}
use go_mini_gateway.Server.Recorder.{StatusRecorder, new_status_recorder, set_route_id}
use go_mini_gateway.Server.Routes.{Handler, Mux}
use go_mini_gateway.Server.Runtime.{MainHandler}
use go_mini_gateway.Server.Serving.{
  Store, InFlight, Outside, Frame, release_place, record_access, Position, at_main, at_route,
  at_upstream, back, take_token, take_place, select_at, finish_at, forward, go_back, advance_main,
  advance_route, advance,
}

-- Nothing was written yet.
pub record IsClean (r : StatusRecorder) : Type 0 where
  pub status : r.status_code ≡ 0
  pub bytes : r.bytes_written ≡ 0
  pub header : r.wrote_header ≡ false

pub new-IsClean : IsClean new_status_recorder
unfolding new_status_recorder
new-IsClean = record { status = refl; bytes = refl; header = refl }

set_route_id-IsClean : (r : StatusRecorder) (id : Text) → IsClean r → IsClean (set_route_id r id)
unfolding set_route_id
set_route_id-IsClean r id h = ground (arith, h)

forward-IsClean :
    (r : StatusRecorder) (statuses : List ℕ)
    → statuses ≡ []
    → IsClean r
    → IsClean (forward r statuses)
unfolding forward
forward-IsClean r [] e c = c
forward-IsClean r (s ∷ ss) e c = absurd (let x : s ∷ ss ≡ [] = e in cc)

-- A step that writes nothing keeps the recorder and the registry.
abbrev pub Quiet : Store × InFlight → Store × InFlight → Type 0
Quiet (s, q) (s', q') = (s'.registry ≡ s.registry) × (IsClean q.recorder → IsClean q'.recorder)

take_token-Quiet :
    (s : Store) (q : InFlight) (n : Text) (p : Position) → Quiet (s, q) (take_token s q n p)
unfolding take_token
take_token-Quiet s q n p = (ground arith, λ c. ground (arith, c))

take_place-Quiet :
    (s : Store) (q : InFlight) (n : Text) (p : Position) → Quiet (s, q) (take_place s q n p)
unfolding take_place
take_place-Quiet s q n p = (ground arith, λ c. ground (arith, c))

module _ (dispatch : Mux → Request → Reply ⊎ Handler) where
  advance_main-Quiet :
      (s : Store) (q : InFlight) (m : MainHandler) → Quiet (s, q) (advance_main dispatch s q m)
  unfolding advance_main
  advance_main-Quiet s q (MainHandler.access_log m) = (refl, λ c. new-IsClean)
  advance_main-Quiet s q (MainHandler.limit_rate n _ m) = take_token-Quiet s q n (at_main m)
  advance_main-Quiet s q (MainHandler.limit_concurrency n _ m) = take_place-Quiet s q n (at_main m)
  advance_main-Quiet s q (MainHandler.with_timeout _ m) = (refl, λ c. c)
  advance_main-Quiet s q (MainHandler.serve_mux mux) = (refl, λ c. c)

  advance_route-Quiet :
      (s : Store) (q : InFlight) (m : Handler) (o : Outside)
      → Quiet (s, q) (advance_route dispatch s q m o)
  unfolding advance_route select_at
  advance_route-Quiet s q Handler.ping o = (refl, λ c. c)
  advance_route-Quiet s q Handler.health o = (refl, λ c. c)
  advance_route-Quiet s q Handler.version o = (refl, λ c. c)
  advance_route-Quiet s q (Handler.with_route_id id m) o =
      (refl, set_route_id-IsClean q.recorder id)
  advance_route-Quiet s q (Handler.limit_rate n _ m) o = take_token-Quiet s q n (at_route m)
  advance_route-Quiet s q (Handler.limit_concurrency n _ m) o = take_place-Quiet s q n (at_route m)
  advance_route-Quiet s q (Handler.proxy p) o = (ground arith, λ c. ground (arith, c))

  -- The steps in front of a handler and at an upstream leave the registry alone, and write nothing but the
  -- informational statuses of an upstream.
  pub advance-Quiet :
      (s : Store) (q : InFlight) (o : Outside)
      → ((r : Reply) → q.position ≢ back r)
      → let (s', q') = advance dispatch s q o in
        (s'.registry ≡ s.registry) × (o.early ≡ [] → IsClean q.recorder → IsClean q'.recorder)
  unfolding advance finish_at
  advance-Quiet s q o n = go q.position refl
    where
      go :
          (p : Position)
          → q.position ≡ p
          → let (s', q') = advance dispatch s q o in
            (s'.registry ≡ s.registry) × (o.early ≡ [] → IsClean q.recorder → IsClean q'.recorder)
      go (at_main m) e =
          let (r, c) = advance_main-Quiet s (record q { position = at_main m }) m in
          rw (e, advance) (r, λ _. c)
      go (at_route m) e =
          let (r, c) = advance_route-Quiet s (record q { position = at_route m }) m o in
          rw (e, advance) (r, λ _. c)
      go (at_upstream id j) e = elim (Option-cases (s.proxies id)) [
        | inl none_there ↦ rw (e, none_there, advance) (refl, λ _ c. c)
        | inr (g, there) ↦
            rw (e, there, advance) (refl, λ early c. forward-IsClean q.recorder o.early early c)
      ]
      go (back r) e = absurd (n r e)

  pub go_back-recorder :
      (s : Store) (q : InFlight) (r : Reply) (frames : List Frame) (o : Outside)
      → (go_back s q r frames o).1.recorder ≡ q.recorder
  unfolding go_back
  go_back-recorder s q r [] o = refl
  go_back-recorder s q r (release_place n ∷ frames) o = refl
  go_back-recorder s q r (record_access ∷ frames) o = refl

  pub go_back-position :
      (s : Store) (q : InFlight) (r : Reply) (frames : List Frame) (o : Outside)
      → (go_back s q r frames o).1.position ≡ q.position
  unfolding go_back
  go_back-position s q r [] o = refl
  go_back-position s q r (release_place n ∷ frames) o = refl
  go_back-position s q r (record_access ∷ frames) o = refl
