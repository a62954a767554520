-- ===== src/Server/Serving/Built.antt =====
-- What becomes of the objects of a runtime when requests are served.
use mathlib.Core.List.{Memᴰ}
use mathlib.Core.Path.{subst}
use go_mini_gateway.Common.{
  ℕ, ◌≤◌, ◌<◌, ◌≡◌, ◌≢◌, ◌⊎◌, inl, inr, refl, sym, ap, ◌∙◌, ℤ, Text, Bool, Option, none, some, List,
  [], ◌∷◌, ◌++◌, All, All-get_elem?, arith, length, get_elem?, text_eq, codes, Bool-cases,
}
use go_mini_gateway.Url.{Url}
use go_mini_gateway.Config.Types.{Config}
use go_mini_gateway.Http.{Reply}
use go_mini_gateway.Concurrency.Limiter.{Limiter}
use go_mini_gateway.Metrics.Registry.{Registry}
use go_mini_gateway.Proxy.Upstream
use go_mini_gateway.Proxy.Upstream.{Upstream}
use go_mini_gateway.Proxy.Upstream.Kept.{AreKept, AreKept-refl}
use go_mini_gateway.Proxy.Build.Laws.{IsUsable}
use go_mini_gateway.Proxy.Handler.{Request}
use go_mini_gateway.Server.Outcome.{done}
use go_mini_gateway.Server.Routes.{Handler, Mux, RouteRuntime}
use go_mini_gateway.Server.Runtime.{RuntimeBundle, build_runtime}
use go_mini_gateway.Server.Serving.{InFlight, at_upstream}
use go_mini_gateway.Server.Serving.World.{World, Reach, route_limiter, route_proxy, store_of}
use go_mini_gateway.Server.Serving.Places.{Holds, places, Reach-Holds}
use go_mini_gateway.Server.Serving.Upstreams.{Proxied, Waits}
use go_mini_gateway.Server.Serving.Waiting.{AllWait, AllWait-mem, Reach-Inv}
use go_mini_gateway.Server.Serving.Fresh.{IsFresh, IsReady, AreFresh, build_runtime-AreFresh}

module _ (accepts : List Text → Text → Bool) (parse_url : Text → Option Url)
    (parse_duration : Text → Option ℤ) where
  route_limiter-IsFresh :
      (routes : List RouteRuntime) (name : Text)
      → AreFresh routes
      → IsFresh (route_limiter routes name)
  unfolding route_limiter AreFresh
  route_limiter-IsFresh [] name h = tt
  route_limiter-IsFresh (r ∷ routes) name (f, h) =
      elim (Bool-cases (text_eq name (codes "route:" ++ r.id))) [
        | inl same ↦ rw same (f.0)
        | inr other ↦ rw other (route_limiter-IsFresh routes name h)
      ]

  IsFresh-Holds : (o : Option Limiter) → IsFresh o → Holds o o 0
  IsFresh-Holds none f = (refl, refl)
  IsFresh-Holds (some l) f = (ap (λ n. some (record l { semaphore = n })) f, f, omega arith)

  Holds-some :
      (l : Limiter) (now : Option Limiter) (n : ℕ)
      → Holds (some l) now n
      → (now ≡ some (record l { semaphore = n })) × (n ≤ l.capacity)
  Holds-some l none n (e, _) = cc
  Holds-some l (some m) n (built, count, le) =
      let same : l ≡ record m { semaphore = 0 } = cc (built) in
      (
        ap some (
            ap (λ k. record m { semaphore = k }) count
            ∙ sym (ap (λ (x : Limiter). record x { semaphore = n }) same)),
        subst (λ (x : Limiter). n ≤ x.capacity) (sym same) le,
      )

  store_of-IsFresh :
      (c : Config) (b : RuntimeBundle) (registry : Option Registry) (name : Text)
      → build_runtime accepts parse_url parse_duration c ≡ done b
      → IsFresh ((store_of b registry).limiters name)
  unfolding store_of
  store_of-IsFresh c b registry name e =
      let (routes, global) = build_runtime-AreFresh accepts parse_url parse_duration c b e in
      elim (Bool-cases (text_eq name (codes "global"))) [
        | inl same ↦ rw same global
        | inr other ↦ rw other (route_limiter-IsFresh b.routes name routes)
      ]

  -- Requests through the handler of a runtime that buildRuntime made, whatever the mux does, in any
  -- interleaving of their steps, with refusals, failing upstreams and panics: each concurrency limiter is as it
  -- was built, but counts exactly the places that the requests hold, and those are at most its capacity.
  pub places_lem :
      (dispatch : Mux → Request → Reply ⊎ Handler) (c : Config) (b : RuntimeBundle)
      (registry : Option Registry) (w : World dispatch) (name : Text) (l : Limiter)
      → build_runtime accepts parse_url parse_duration c ≡ done b
      → Reach dispatch b.handler (record { store = store_of b registry; requests = [] }) w
      → (store_of b registry).limiters name ≡ some l
      → (w.store.limiters name ≡ some (record l { semaphore = places dispatch name w.requests }))
        × (places dispatch name w.requests ≤ l.capacity)
  unfolding places
  places_lem dispatch c b registry w name l e r built =
      Holds-some l (w.store.limiters name) (places dispatch name w.requests) (
        Reach-Holds dispatch name (some l) r (
          subst (λ o. Holds o ((store_of b registry).limiters name) 0) built
            (IsFresh-Holds _ (store_of-IsFresh c b registry name e))))

  route_proxy-IsReady :
      (routes : List RouteRuntime) (id : Text) (h : Upstream.Handler)
      → AreFresh routes
      → route_proxy routes id ≡ some h
      → IsReady h
  unfolding route_proxy AreFresh
  route_proxy-IsReady [] id h f e = cc
  route_proxy-IsReady (r ∷ routes) id h (f, fs) e = elim (Bool-cases (text_eq id r.id)) [
    | inl same ↦
        let e' = rw same at e in
        let is_h : r.proxy_handler ≡ h = cc (e') in subst IsReady is_h (f.1)
    | inr other ↦ let e' = rw other at e in route_proxy-IsReady routes id h fs e'
  ]

  usable :
      (us vs : List Upstream) (j : ℕ) (v : Upstream)
      → All IsUsable us
      → AreKept us vs
      → get_elem? vs j ≡ some v
      → (u : Upstream) × (get_elem? us j ≡ some u) × (v.id ≡ u.id) × (v.url ≡ u.url) × IsUsable v
  usable us vs j v all kept e =
      let (u, eu, k) = kept.each j v e in
      let good = All-get_elem? IsUsable us j all eu in
      (
        u,
        eu,
        k.id,
        k.url,
        record {
          named = subst (λ t. t ≢ []) (sym k.id) good.named;
          scheme = subst (λ (t : Url). t.scheme ≢ []) (sym k.url) good.scheme;
          host = subst (λ (t : Url). t.host ≢ []) (sym k.url) good.host;
          breaker = k.valid good.breaker;
        },
      )

  Proxied-refl : (o : Option Upstream.Handler) → Proxied o o
  Proxied-refl none = refl
  Proxied-refl (some h) = (h, refl, AreKept-refl h.upstreams)

  -- In any interleaving of requests through the handler of a runtime that buildRuntime made, with refusals,
  -- failing upstreams and panics: the proxy of a route has at each place the upstream that it was built with,
  -- of the same id and address, and with a valid breaker if it has one; and a request that waits for an
  -- upstream of the route waits at one of these places.
  pub upstreams_lem :
      (dispatch : Mux → Request → Reply ⊎ Handler) (c : Config) (b : RuntimeBundle)
      (registry : Option Registry) (w : World dispatch) (id : Text) (h : Upstream.Handler)
      → build_runtime accepts parse_url parse_duration c ≡ done b
      → Reach dispatch b.handler (record { store = store_of b registry; requests = [] }) w
      → (store_of b registry).proxies id ≡ some h
      → ((g : Upstream.Handler) × (w.store.proxies id ≡ some g)
          × (length g.upstreams ≡ length h.upstreams)
          × ((j : ℕ) (v : Upstream)
              → get_elem? g.upstreams j ≡ some v
              → (u : Upstream) × (get_elem? h.upstreams j ≡ some u)
                × (v.id ≡ u.id)
                × (v.url ≡ u.url)
                × IsUsable v))
        × ((q : InFlight) (j : ℕ)
            → Memᴰ q w.requests
            → q.position ≡ at_upstream id j
            → j < length h.upstreams)
  unfolding store_of AllWait
  upstreams_lem dispatch c b registry w id h e r built =
      let s = store_of b registry in
      let i =
        Reach-Inv s.proxies dispatch r
          (record { proxied = λ i. Proxied-refl (s.proxies i); waiting = tt }) in
      let (g, there, kept) = subst (λ o. Proxied o (w.store.proxies id)) built (i.proxied id) in
      let (routes, _) = build_runtime-AreFresh accepts parse_url parse_duration c b e in
      let (_, all) = route_proxy-IsReady b.routes id h routes built in
      (
        (g, there, kept.count, λ j v. usable h.upstreams g.upstreams j v all kept),
        λ q j m at.
            let (f, was, inside) =
              subst (Waits s.proxies) at
                (AllWait-mem s.proxies dispatch w.requests q i.waiting m) in
            let same : f ≡ h = cc (was, built) in
            subst (λ (x : Upstream.Handler). j < length x.upstreams) same inside,
      )
