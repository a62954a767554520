-- ===== src/Server/Serving/Upstreams.antt =====
-- The upstreams of the proxies while requests are served.
use mathlib.Core.Path.{subst}
use go_mini_gateway.Common.{
  ℕ, ◌<◌, ◌≡◌, ◌⊎◌, inl, inr, refl, ap, ◌∙◌, Text, Option, none, some, List, [], ◌∷◌, Time, arith,
  length, text_eq, text_eq_iff, Bool-cases, Option-cases,
}
use go_mini_gateway.Http.{Reply, reply, panicked}
use go_mini_gateway.Proxy.Upstream
use go_mini_gateway.Proxy.Upstream.{select_upstream}
use go_mini_gateway.Proxy.Upstream.Kept.{AreKept, AreKept-trans, select_upstream-AreKept}
use go_mini_gateway.Proxy.Handler.{Request, finish}
use go_mini_gateway.Proxy.Handler.Kept.{finish-AreKept}
use go_mini_gateway.Server.Routes.{Handler, Mux}
use go_mini_gateway.Server.Runtime.{MainHandler}
use go_mini_gateway.Server.Serving.{
  Store, Frame, release_place, record_access, Position, at_main, at_route, at_upstream, back,
  InFlight, Outside, update, record_reply, take_token, take_place, select_at, finish_at, go_back,
  advance_main, advance_route, advance,
}

-- The proxy has the upstreams that it was built with.
abbrev pub Proxied : Option Upstream.Handler → Option Upstream.Handler → Type 0
Proxied none now = now ≡ none
Proxied (some h) now = (g : Upstream.Handler) × (now ≡ some g) × AreKept h.upstreams g.upstreams

-- A request that waits for an upstream waits for one that was built.
abbrev pub Waits : (Text → Option Upstream.Handler) → Position → Type 0
Waits built (at_main h) = Unit
Waits built (at_route h) = Unit
Waits built (at_upstream id j) =
    (h : Upstream.Handler) × (built id ≡ some h) × (j < length h.upstreams)
Waits built (back r) = Unit

abbrev pub Keeps : (Text → Option Upstream.Handler) → Store × InFlight → Type 0
Keeps built (s, q) = ((id : Text) → Proxied (built id) (s.proxies id)) × Waits built q.position

module _ (built : Text → Option Upstream.Handler) where
  take_token-Keeps :
      (s : Store) (q : InFlight) (n : Text) (p : Position)
      → ((id : Text) → Proxied (built id) (s.proxies id))
      → Waits built p
      → Keeps built (take_token s q n p)
  unfolding take_token
  take_token-Keeps s q n p h w = (λ id. ground (arith, h id), ground (arith, w))

  take_place-Keeps :
      (s : Store) (q : InFlight) (n : Text) (p : Position)
      → ((id : Text) → Proxied (built id) (s.proxies id))
      → Waits built p
      → Keeps built (take_place s q n p)
  unfolding take_place
  take_place-Keeps s q n p h w = (λ id. ground (arith, h id), ground (arith, w))

  -- A proxy at one name is exchanged for one with the same upstreams.
  update-Proxied :
      (proxies : Text → Option Upstream.Handler) (n : Text) (g g' : Upstream.Handler)
      → ((id : Text) → Proxied (built id) (proxies id))
      → proxies n ≡ some g
      → AreKept g.upstreams g'.upstreams
      → (id : Text) → Proxied (built id) (update proxies n (some g') id)
  update-Proxied proxies n g g' h e k id = elim (Bool-cases (text_eq id n)) [
    | inl same ↦ rw same (go (built id) (h id) (ap proxies ((text_eq_iff id n).0 same) ∙ e))
    | inr other ↦ rw other (h id)
  ]
    where
      go :
          {now : Option Upstream.Handler} (b : Option Upstream.Handler)
          → Proxied b now
          → now ≡ some g
          → Proxied b (some g')
      go none gone there = cc
      go (some f) (f', there', kept) there =
          let same : f' ≡ g = cc (there', there) in
          (
            g',
            refl,
            AreKept-trans f.upstreams g.upstreams g'.upstreams
                (subst (λ (x : Upstream.Handler). AreKept f.upstreams x.upstreams) same kept) k,
          )

  proxy_lem :
      (id : Text) (s : Store) (g : Upstream.Handler)
      → ((i : Text) → Proxied (built i) (s.proxies i))
      → s.proxies id ≡ some g
      → (f : Upstream.Handler) × (built id ≡ some f) × AreKept f.upstreams g.upstreams
  proxy_lem id s g h e = go (built id) refl (h id)
    where
      go :
          (b : Option Upstream.Handler)
          → built id ≡ b
          → Proxied b (s.proxies id)
          → (f : Upstream.Handler) × (built id ≡ some f) × AreKept f.upstreams g.upstreams
      go none was gone = cc
      go (some f) was (f', there, kept) =
          let same : f' ≡ g = cc (there, e) in
          (f, was, subst (λ (x : Upstream.Handler). AreKept f.upstreams x.upstreams) same kept)

  select_at-Keeps :
      (s : Store) (q : InFlight) (id : Text) (g : Upstream.Handler) (clock : ℕ → Time)
      → ((i : Text) → Proxied (built i) (s.proxies i))
      → s.proxies id ≡ some g
      → Keeps built (select_at s q id g clock)
  unfolding select_at
  select_at-Keeps s q id g clock h e =
      let (kept, inside) = select_upstream-AreKept g clock in
      let (f, was, same) = proxy_lem id s g h e in
      (
        update-Proxied s.proxies id g (select_upstream g clock).0 h e kept,
        elim (Option-cases (select_upstream g clock).1) [
          | inl none_taken ↦ rw (none_taken, select_at) tt
          | inr (j, taken) ↦
              rw (taken, select_at) (f, was, omega (arith, inside j taken, same.count))
        ],
      )

  finish_at-Keeps :
      (s : Store) (q : InFlight) (id : Text) (j : ℕ) (g : Upstream.Handler) (o : Outside)
      → ((i : Text) → Proxied (built i) (s.proxies i))
      → s.proxies id ≡ some g
      → j < length g.upstreams
      → Keeps built (finish_at s q id j g o)
  unfolding finish_at
  finish_at-Keeps s q id j g o h e inside =
      let (kept, _) = finish-AreKept g j o.answer o.now inside in
      (update-Proxied s.proxies id g (finish g j o.answer o.now).0 h e kept, tt)

  record_reply-proxies :
      (s : Store) (q : InFlight) (r : Reply) (o : Outside)
      → (record_reply s q r o).proxies ≡ s.proxies
  unfolding record_reply
  record_reply-proxies s q (reply r) o = refl
  record_reply-proxies s q panicked o = refl

  go_back-Keeps :
      (s : Store) (q : InFlight) (r : Reply) (frames : List Frame) (o : Outside)
      → ((i : Text) → Proxied (built i) (s.proxies i))
      → Waits built q.position
      → Keeps built (go_back s q r frames o)
  unfolding go_back
  go_back-Keeps s q r [] o h w = (h, w)
  go_back-Keeps s q r (release_place n ∷ frames) o h w = (h, w)
  go_back-Keeps s q r (record_access ∷ frames) o h w =
      (λ i. rw (record_reply-proxies s q r o) (h i), w)

  module _ (dispatch : Mux → Request → Reply ⊎ Handler) where
    advance_main-Keeps :
        (s : Store) (q : InFlight) (m : MainHandler)
        → ((i : Text) → Proxied (built i) (s.proxies i))
        → Keeps built (advance_main dispatch s q m)
    unfolding advance_main
    advance_main-Keeps s q (MainHandler.access_log m) h = (h, tt)
    advance_main-Keeps s q (MainHandler.limit_rate n _ m) h =
        take_token-Keeps s q n (at_main m) h tt
    advance_main-Keeps s q (MainHandler.limit_concurrency n _ m) h =
        take_place-Keeps s q n (at_main m) h tt
    advance_main-Keeps s q (MainHandler.with_timeout _ m) h = (h, tt)
    advance_main-Keeps s q (MainHandler.serve_mux mux) h = (h, ground arith)

    advance_route-Keeps :
        (s : Store) (q : InFlight) (m : Handler) (o : Outside)
        → ((i : Text) → Proxied (built i) (s.proxies i))
        → Keeps built (advance_route dispatch s q m o)
    unfolding advance_route
    advance_route-Keeps s q Handler.ping o h = (h, tt)
    advance_route-Keeps s q Handler.health o h = (h, tt)
    advance_route-Keeps s q Handler.version o h = (h, tt)
    advance_route-Keeps s q (Handler.with_route_id id m) o h = (h, tt)
    advance_route-Keeps s q (Handler.limit_rate n _ m) o h =
        take_token-Keeps s q n (at_route m) h tt
    advance_route-Keeps s q (Handler.limit_concurrency n _ m) o h =
        take_place-Keeps s q n (at_route m) h tt
    advance_route-Keeps s q (Handler.proxy p) o h = elim (Option-cases (s.proxies p.route_id)) [
      | inl none_there ↦ rw (none_there, advance_route) (h, tt)
      | inr (g, there) ↦
          rw (there, advance_route) (select_at-Keeps s q p.route_id g o.clock h there)
    ]

    pub advance-Keeps :
        (s : Store) (q : InFlight) (o : Outside)
        → ((i : Text) → Proxied (built i) (s.proxies i))
        → Waits built q.position
        → Keeps built (advance dispatch s q o)
    unfolding advance
    advance-Keeps s q o h w = go q.position refl
      where
        go : (position : Position) → q.position ≡ position → Keeps built (advance dispatch s q o)
        go (at_main m) e =
            rw (e, advance) (advance_main-Keeps s (record q { position = at_main m }) m h)
        go (at_route m) e =
            rw (e, advance) (advance_route-Keeps s (record q { position = at_route m }) m o h)
        go (at_upstream id j) e =
            let (f, was, inside) = subst (Waits built) e w in
            let (g, there, kept) = subst (λ b. Proxied b (s.proxies id)) was (h id) in
            rw (e, there, advance)
              (finish_at-Keeps s (record q { position = at_upstream id j }) id j g o h there
                (omega (arith, inside, kept.count)))
        go (back r) e = rw (e, advance) (go_back-Keeps s q r q.frames o h w)
