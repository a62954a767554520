-- ===== src/Proxy/Upstream/Admits.antt =====
-- When an upstream takes a request, said of its fields: what `tryAcquire` of internal/proxy/upstream.go decides
-- with its health checks and its breaker.
use go_mini_gateway.Common.{◌≤◌, ◌<◌, ◌≡◌, ◌↔◌, refl, ap, Time, true, Option, none, some, arith}
use mathlib.Core.Option
use go_mini_gateway.Health.Checker as ActiveHealth
use go_mini_gateway.Health.Checker.{Checker}
use go_mini_gateway.Proxy.Passive
use go_mini_gateway.Proxy.Passive.{PassiveHealth}
use go_mini_gateway.Proxy.Breaker
use go_mini_gateway.Proxy.Breaker.{CircuitBreaker, CircuitState, closed, opened, half_open, other}
use go_mini_gateway.Proxy.Upstream.{Upstream, passive_ok, ask_breaker, try_acquire}

-- A checker that has checked found the upstream healthy.
abbrev pub IsChecked : Option Checker → Type 0
IsChecked none = Unit
IsChecked (some c) = c.checked ≡ true → c.healthy ≡ true

-- An upstream that was taken for unhealthy by its answers may be tried again.
abbrev pub IsRetried : Option PassiveHealth → Time → Type 0
IsRetried none now = Unit
IsRetried (some s) now = s.unhealthy ≡ true → s.retry_after ≤ now

-- A closed breaker lets requests in; an open one from its next attempt on, and a half-open one while a slot is
-- free. A state of another name lets them in.
abbrev pub LetsIn : CircuitState → CircuitBreaker → Time → Type 0
LetsIn closed c now = Unit
LetsIn opened c now = (c.next_attempt_at ≤ now) × (0 < c.half_open_max_requests)
LetsIn half_open c now = c.half_open_in_flight < c.half_open_max_requests
LetsIn (other _) c now = Unit

abbrev pub BreakerLetsIn : Option CircuitBreaker → Time → Type 0
BreakerLetsIn none now = Unit
BreakerLetsIn (some c) now = LetsIn c.state c now

pub record Admits (u : Upstream) (now : Time) : Type 0 where
  pub checked : IsChecked u.active_health
  pub retried : IsRetried u.passive_health now
  pub breaker : BreakerLetsIn u.circuit_breaker now

available_iff : (o : Option Checker) → (ActiveHealth.available o ≡ true) ↔ IsChecked o
unfolding ActiveHealth.available
available_iff none = (λ _. tt, λ _. refl)
available_iff (some c) = (λ h e. ground arith, λ h. ground (arith, h))

passive_ok_iff :
    (o : Option PassiveHealth) (now : Time) → (passive_ok o now ≡ true) ↔ IsRetried o now
unfolding passive_ok Passive.available
passive_ok_iff none now = (λ _. tt, λ _. refl)
passive_ok_iff (some s) now = (λ h e. ground arith, λ h. ground (arith, h))

allow_iff :
    (s : CircuitState) (c : CircuitBreaker) (now : Time)
    → c.state ≡ s
    → ((Breaker.allow c now).1 ≡ true) ↔ LetsIn s c now
unfolding Breaker.allow
allow_iff closed c now e = (λ _. tt, λ _. rw e refl)
allow_iff opened c now e = (λ h. ground arith, λ h. ground arith)
allow_iff half_open c now e = (λ h. ground arith, λ h. ground arith)
allow_iff (other t) c now e = (λ _. tt, λ _. rw e refl)

-- What the upstream is behind the question to its breaker.
abbrev pub asked : Upstream → Time → Upstream
asked u now = record u {
  circuit_breaker = Option.map (λ c. (Breaker.allow c now).0) u.circuit_breaker;
}

ask_breaker_iff :
    (u : Upstream) (o : Option CircuitBreaker) (now : Time)
    → ((ask_breaker u o now).1 ≡ true) ↔ BreakerLetsIn o now
unfolding ask_breaker
ask_breaker_iff u none now = (λ _. tt, λ _. refl)
ask_breaker_iff u (some c) now = allow_iff c.state c now refl

ask_breaker_asked :
    (u : Upstream) (o : Option CircuitBreaker) (now : Time)
    → u.circuit_breaker ≡ o
    → (ask_breaker u o now).0
      ≡ record u { circuit_breaker = Option.map (λ c. (Breaker.allow c now).0) o }
unfolding ask_breaker
ask_breaker_asked u none now e = ap (λ b. record u { circuit_breaker = b }) e
ask_breaker_asked u (some c) now e = refl

-- An upstream accepts a request exactly when its health checks and its breaker let it in.
pub try_acquire_iff : (u : Upstream) (now : Time) → ((try_acquire u now).1 ≡ true) ↔ Admits u now
unfolding try_acquire
try_acquire_iff u now = (
  λ h.
      let a : ActiveHealth.available u.active_health ≡ true = ground arith in
      let p : passive_ok u.passive_health now ≡ true = ground arith in
      let b : (ask_breaker u u.circuit_breaker now).1 ≡ true = ground arith in
      record {
        checked = (available_iff u.active_health).0 a;
        retried = (passive_ok_iff u.passive_health now).0 p;
        breaker = (ask_breaker_iff u u.circuit_breaker now).0 b;
      },
  λ h.
      let a = (available_iff u.active_health).1 h.checked in
      let p = (passive_ok_iff u.passive_health now).1 h.retried in
      let b = (ask_breaker_iff u u.circuit_breaker now).1 h.breaker in ground arith,
)

-- It is then changed by the question to its breaker alone.
pub try_acquire_asked :
    (u : Upstream) (now : Time) → (try_acquire u now).1 ≡ true → (try_acquire u now).0 ≡ asked u now
unfolding try_acquire
try_acquire_asked u now h = ground (arith, ask_breaker_asked u u.circuit_breaker now refl)
