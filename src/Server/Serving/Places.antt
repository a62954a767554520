-- ===== src/Server/Serving/Places.antt =====
-- The places of the limiters and the requests that hold them.
use mathlib.Core.Path.{subst}
use go_mini_gateway.Common.{
  ℕ, ◌+◌, ◌≤◌, ◌≡◌, ◌⊎◌, inl, inr, refl, sym, ap, ◌∙◌, Text, Option, none, some, List, [], ◌∷◌,
  ◌++◌, arith, ltb, text_eq, text_eq_iff, Bool-cases, Option-cases, if◌then◌else◌,
}
use go_mini_gateway.Http.{Reply, reply, panicked}
use go_mini_gateway.Concurrency.Limiter.{Limiter, try_acquire, release}
use go_mini_gateway.Proxy.Handler.{Request}
use go_mini_gateway.Server.Routes.{Handler, Mux}
use go_mini_gateway.Server.Runtime.{MainHandler}
use go_mini_gateway.Server.Serving.{
  Store, Frame, release_place, record_access, Position, at_main, at_route, at_upstream, back,
  record_reply, InFlight, Outside, take_token, take_place, select_at, finish_at, go_back,
  advance_main, advance_route, advance,
}
use go_mini_gateway.Server.Serving.World.{World, Step, arrives, moves, leaves, Reach, begun, later}

-- The places with this name that wait for their release.
unfoldable pub held : Text → List Frame → ℕ
held name [] = 0
held name (release_place n ∷ frames) =
    let rest = held name frames in if text_eq name n then rest + 1 else rest
held name (record_access ∷ frames) = held name frames

-- The limiter is as it was built, but counts exactly the places that are held, and they are at most its
-- capacity.
abbrev pub Holds : Option Limiter → Option Limiter → ℕ → Type 0
Holds built none n = (built ≡ none) × (n ≡ 0)
Holds built (some l) n =
    (built ≡ some (record l { semaphore = 0 })) × (l.semaphore ≡ n) × (n ≤ l.capacity)

-- What a step of a request does to the limiter of a name and to the places that the request holds there.
abbrev KeepsPlaces : Text → Store × InFlight → Store × InFlight → Type 0
KeepsPlaces name (s, q) (s', q') =
    (built : Option Limiter) (m : ℕ)
    → Holds built (s.limiters name) (held name q.frames + m)
    → Holds built (s'.limiters name) (held name q'.frames + m)

take_token-KeepsPlaces :
    (s : Store) (q : InFlight) (n : Text) (next : Position) (name : Text)
    → KeepsPlaces name (s, q) (take_token s q n next)
unfolding take_token
take_token-KeepsPlaces s q n next name built m h = ground arith

take_place-KeepsPlaces :
    (s : Store) (q : InFlight) (n : Text) (next : Position) (name : Text)
    → KeepsPlaces name (s, q) (take_place s q n next)
unfolding take_place try_acquire held
take_place-KeepsPlaces s q n next name built m h = elim (Option-cases (s.limiters n)) [
  | inl e ↦ rw (e, take_place) h
  | inr (l, e) ↦ elim (Bool-cases (text_eq name n)) [
    | inl same ↦
        let here_ : s.limiters name ≡ some l = ap s.limiters ((text_eq_iff name n).0 same) ∙ e in
        let h' = subst (λ x. Holds built x (held name q.frames + m)) here_ h in
        elim (Bool-cases (ltb l.semaphore l.capacity)) [
          | inl room ↦ rw (e, room, take_place) (rw same (ground arith))
          | inr full ↦ rw (e, full, take_place) (rw same h')
        ]
    | inr other ↦ elim (Bool-cases (ltb l.semaphore l.capacity)) [
      | inl room ↦ rw (e, room, take_place) (rw other h)
      | inr full ↦ rw (e, full, take_place) (rw other h)
    ]
  ]
]

release-KeepsPlaces :
    (s : Store) (q : InFlight) (n : Text) (frames : List Frame) (r : Reply) (o : Outside)
    (name : Text) (built : Option Limiter) (m : ℕ)
    → Holds built (s.limiters name) (held name (release_place n ∷ frames) + m)
    → let (s', q') = go_back s q r (release_place n ∷ frames) o in
      Holds built (s'.limiters name) (held name q'.frames + m)
unfolding go_back release held
release-KeepsPlaces s q n frames r o name built m h = elim (Bool-cases (text_eq name n)) [
  | inl same ↦
      let h' = rw same at h in
      let one = ap s.limiters ((text_eq_iff name n).0 same) in
      elim (Option-cases (s.limiters n)) [
        | inl e ↦
            let none_held = subst (λ x. Holds built x (held name frames + 1 + m)) (one ∙ e) h' in
            absurd (omega arith)
        | inr (l, e) ↦
            let some_held = subst (λ x. Holds built x (held name frames + 1 + m)) (one ∙ e) h' in
            rw (e, same) (ground arith)
      ]
  | inr other ↦ let h' = rw other at h in rw other h'
]

record_reply-limiters :
    (s : Store) (q : InFlight) (r : Reply) (o : Outside)
    → (record_reply s q r o).limiters ≡ s.limiters
unfolding record_reply
record_reply-limiters s q (reply r) o = refl
record_reply-limiters s q panicked o = refl

go_back-KeepsPlaces :
    (s : Store) (q : InFlight) (r : Reply) (o : Outside) (name : Text)
    → KeepsPlaces name (s, q) (go_back s q r q.frames o)
unfolding go_back record_reply held
go_back-KeepsPlaces s q r o name built m = go q.frames
  where
    go :
        (frames : List Frame)
        → Holds built (s.limiters name) (held name frames + m)
        → let (s', q') = go_back s (record q { frames = frames }) r frames o in
          Holds built (s'.limiters name) (held name q'.frames + m)
    go [] h = h
    go (release_place n ∷ frames) h =
        release-KeepsPlaces s (record q { frames = release_place n ∷ frames }) n frames r o name
          built m h
    go (record_access ∷ frames) h = rw (record_reply-limiters s _ r o) h

module _ (dispatch : Mux → Request → Reply ⊎ Handler) where
  advance_main-KeepsPlaces :
      (s : Store) (q : InFlight) (h : MainHandler) (name : Text)
      → KeepsPlaces name (s, q) (advance_main dispatch s q h)
  unfolding advance_main held
  advance_main-KeepsPlaces s q (MainHandler.access_log next) name built m h = h
  advance_main-KeepsPlaces s q (MainHandler.limit_rate n _ next) name built m h =
      take_token-KeepsPlaces s q n (at_main next) name built m h
  advance_main-KeepsPlaces s q (MainHandler.limit_concurrency n _ next) name built m h =
      take_place-KeepsPlaces s q n (at_main next) name built m h
  advance_main-KeepsPlaces s q (MainHandler.with_timeout _ next) name built m h = h
  advance_main-KeepsPlaces s q (MainHandler.serve_mux mux) name built m h = h

  advance_route-KeepsPlaces :
      (s : Store) (q : InFlight) (h : Handler) (o : Outside) (name : Text)
      → KeepsPlaces name (s, q) (advance_route dispatch s q h o)
  unfolding advance_route select_at
  advance_route-KeepsPlaces s q Handler.ping o name built m h = h
  advance_route-KeepsPlaces s q Handler.health o name built m h = h
  advance_route-KeepsPlaces s q Handler.version o name built m h = h
  advance_route-KeepsPlaces s q (Handler.with_route_id id next) o name built m h = h
  advance_route-KeepsPlaces s q (Handler.limit_rate n _ next) o name built m h =
      take_token-KeepsPlaces s q n (at_route next) name built m h
  advance_route-KeepsPlaces s q (Handler.limit_concurrency n _ next) o name built m h =
      take_place-KeepsPlaces s q n (at_route next) name built m h
  advance_route-KeepsPlaces s q (Handler.proxy p) o name built m h = ground arith

  -- Each step of a request keeps the count of each limiter, whatever the other requests hold.
  advance-KeepsPlaces :
      (s : Store) (q : InFlight) (o : Outside) (name : Text)
      → KeepsPlaces name (s, q) (advance dispatch s q o)
  unfolding advance finish_at
  advance-KeepsPlaces s q o name built m h = go q.position refl
    where
      go :
          (position : Position)
          → q.position ≡ position
          → let (s', q') = advance dispatch s q o in
            Holds built (s'.limiters name) (held name q'.frames + m)
      go (at_main next) e =
          rw e
            (advance_main-KeepsPlaces s (record q { position = at_main next }) next name built m h)
      go (at_route next) e = rw e (
          advance_route-KeepsPlaces s (record q { position = at_route next }) next o name built m h)
      go (at_upstream id j) e = elim (Option-cases (s.proxies id)) [
        | inl none_there ↦ rw (e, none_there, advance) h
        | inr (proxy, there) ↦ rw (e, there, advance) h
      ]
      go (back r) e =
          rw e (go_back-KeepsPlaces s (record q { position = back r }) r o name built m h)

  -- The places with this name that the requests hold.
  unfoldable pub places : Text → List InFlight → ℕ
  places name [] = 0
  places name (q ∷ requests) = held name q.frames + places name requests

  places-one :
      (name : Text) (before after : List InFlight) (q : InFlight)
      → places name (before ++ q ∷ after) ≡ held name q.frames + places name (before ++ after)
  unfolding places
  places-one name [] after q = refl
  places-one name (b ∷ before) after q = omega (arith, places-one name before after q)

  Step-Holds :
      {handler : MainHandler} {w v : World dispatch} (name : Text) (built : Option Limiter)
      → Step dispatch handler w v
      → Holds built (w.store.limiters name) (places name w.requests)
      → Holds built (v.store.limiters name) (places name v.requests)
  unfolding places held
  Step-Holds {w = w} name built (arrives r) h =
      let none_more : places name w.requests ≡ 0 + places name w.requests = omega arith in
      subst (λ n. Holds built (w.store.limiters name) n) none_more h
  Step-Holds {w = w} name built (moves before after q o e) h =
      let h' =
        subst (λ n. Holds built (w.store.limiters name) n)
          (ap (places name) e ∙ places-one name before after q) h in
      subst (λ n. Holds built ((advance dispatch w.store q o).0.limiters name) n)
        (sym (places-one name before after (advance dispatch w.store q o).1))
        (advance-KeepsPlaces w.store q o name built (places name (before ++ after)) h')
  Step-Holds {w = w} name built (leaves before after q r e p f) h =
      let nothing_held : 0 + places name (before ++ after) ≡ places name (before ++ after) =
        omega arith in
      subst (λ n. Holds built (w.store.limiters name) n)
        (ap (places name) e
          ∙ places-one name before after q
          ∙ ap (λ (fs : List Frame). held name fs + places name (before ++ after)) f
          ∙ nothing_held)
        h

  pub Reach-Holds :
      {handler : MainHandler} {w v : World dispatch} (name : Text) (built : Option Limiter)
      → Reach dispatch handler w v
      → Holds built (w.store.limiters name) (places name w.requests)
      → Holds built (v.store.limiters name) (places name v.requests)
  Reach-Holds name built begun h = h
  Reach-Holds name built (later r st) h = Step-Holds name built st (Reach-Holds name built r h)
