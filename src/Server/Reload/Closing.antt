-- ===== src/Server/Reload/Closing.antt =====
-- What it is to close the resources of a runtime, as closeRuntimeResources of internal/server/lifecycle.go
-- does, said of what was there before and of what is there behind.
use go_mini_gateway.Common.{◌≡◌, refl, true, Option, none, some, List, [], ◌∷◌, map, arith}
use mathlib.Core.Option
use go_mini_gateway.Health.Checker
use go_mini_gateway.Health.Checker.{Checker}
use go_mini_gateway.RateLimit.TokenBucket
use go_mini_gateway.RateLimit.TokenBucket.{TokenBucket}
use go_mini_gateway.Proxy.Upstream.{Upstream, Handler}
use go_mini_gateway.Proxy.Snapshots.{close_idle_connections, close_checker}
use go_mini_gateway.Server.Reload.{Server, Released, close_runtime_resources, close_resource}

-- The lists are of one length, and the relation holds at each place.
abbrev pub Pairwise : {A B : Type 0} → (A → B → Type 0) → List A → List B → Type 0
Pairwise R [] [] = Unit
Pairwise R (x ∷ xs) (y ∷ ys) = R x y × Pairwise R xs ys
Pairwise R [] (y ∷ ys) = ⊥
Pairwise R (x ∷ xs) [] = ⊥

-- The same health checker, if there is one, and its goroutine was told to stop.
abbrev pub StopsChecker : Option Checker → Option Checker → Type 0
StopsChecker none none = Unit
StopsChecker (some c) (some d) = (d.name ≡ c.name) × (d.target ≡ c.target) × (d.done ≡ true)
StopsChecker none (some d) = ⊥
StopsChecker (some c) none = ⊥

-- The same rate limiter, and its goroutine was told to stop.
abbrev pub StopsBucket : Option TokenBucket → Option TokenBucket → Type 0
StopsBucket none none = Unit
StopsBucket (some b) (some d) = (d.name ≡ b.name) × (d.done ≡ true)
StopsBucket none (some d) = ⊥
StopsBucket (some b) none = ⊥

abbrev pub StopsUpstream : Upstream → Upstream → Type 0
StopsUpstream u v = (v.id ≡ u.id) × StopsChecker u.active_health v.active_health

abbrev pub StopsHandler : Handler → Handler → Type 0
StopsHandler h g = (g.route_id ≡ h.route_id) × Pairwise StopsUpstream h.upstreams g.upstreams

-- Every health checker of every proxy of the server, and every one of its rate limiters, was told to stop.
pub record Stops (s : Server) (r : Released) : Type 0 where
  pub proxy_handlers : Pairwise StopsHandler s.proxy_handlers r.proxy_handlers
  pub rate_limiters : Pairwise StopsBucket s.rate_limiters r.rate_limiters

Pairwise-map :
    {A : Type 0} (R : A → A → Type 0) (f : A → A)
    → ((a : A) → R a (f a))
    → (xs : List A) → Pairwise R xs (map f xs)
Pairwise-map R f h [] = tt
Pairwise-map R f h (x ∷ xs) = (h x, Pairwise-map R f h xs)

close-StopsChecker : (o : Option Checker) → StopsChecker o (Option.map Checker.close o)
unfolding Checker.close
close-StopsChecker none = tt
close-StopsChecker (some c) = (refl, refl, refl)

close-StopsBucket : (o : Option TokenBucket) → StopsBucket o (TokenBucket.close o)
unfolding TokenBucket.close
close-StopsBucket none = tt
close-StopsBucket (some b) = ground arith

close-StopsHandler : (h : Handler) → StopsHandler h (close_idle_connections h)
unfolding close_idle_connections
close-StopsHandler h = (
  refl,
  Pairwise-map StopsUpstream close_checker (λ u. (refl, close-StopsChecker u.active_health))
      h.upstreams,
)

-- The resources of a server are closed whole, behind a reload and at the end of the process.
pub close_runtime_resources-Stops :
    (s : Server) → Stops s (close_runtime_resources s.proxy_handlers s.rate_limiters)
unfolding close_runtime_resources
close_runtime_resources-Stops s = record {
  proxy_handlers =
      Pairwise-map StopsHandler close_idle_connections close-StopsHandler s.proxy_handlers;
  rate_limiters = Pairwise-map StopsBucket TokenBucket.close close-StopsBucket s.rate_limiters;
}

pub close_resource-Stops : (s : Server) → Stops s (close_resource s)
unfolding close_resource
close_resource-Stops s = close_runtime_resources-Stops s
