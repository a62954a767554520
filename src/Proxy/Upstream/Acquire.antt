-- ===== src/Proxy/Upstream/Acquire.antt =====
-- What a refusal and an acceptance of an upstream do to it.
use go_mini_gateway.Common.{◌≡◌, refl, Time, false, Option, none, some, arith}
use go_mini_gateway.Proxy.Breaker
use go_mini_gateway.Proxy.Breaker.{CircuitBreaker}
use go_mini_gateway.Proxy.Breaker.Invariant
use go_mini_gateway.Proxy.Breaker.Invariant.{
  allow-IsValid, record_success-IsValid, record_failure-IsValid,
}
use go_mini_gateway.Proxy.Upstream.{Upstream, try_acquire, ask_breaker}

-- The upstream's breaker, if there is one, is valid.
abbrev pub HasValidBreaker : Option CircuitBreaker → Type 0
HasValidBreaker none = Unit
HasValidBreaker (some c) = Invariant.IsValid c

abbrev pub IsValid : Upstream → Type 0
IsValid u = HasValidBreaker u.circuit_breaker

allow_refused :
    (c : CircuitBreaker) (now : Time)
    → Invariant.IsValid c
    → (Breaker.allow c now).1 ≡ false
    → (Breaker.allow c now).0 ≡ c
unfolding Breaker.allow
allow_refused c now v h = ground arith

ask_breaker_refused :
    (u : Upstream) (b : Option CircuitBreaker) (now : Time)
    → u.circuit_breaker ≡ b
    → HasValidBreaker b
    → (ask_breaker u b now).1 ≡ false
    → (ask_breaker u b now).0 ≡ u
unfolding ask_breaker
ask_breaker_refused u none now e v h = refl
ask_breaker_refused u (some c) now e v h = ground (arith, allow_refused c now v h)

-- An upstream that refuses a request is left as it was: a refusal takes no half-open slot.
pub try_acquire_refused :
    (u : Upstream) (now : Time)
    → IsValid u
    → (try_acquire u now).1 ≡ false
    → (try_acquire u now).0 ≡ u
unfolding try_acquire
try_acquire_refused u now v h = ground (arith, ask_breaker_refused u u.circuit_breaker now refl v)

ask_breaker-IsValid :
    (u : Upstream) (b : Option CircuitBreaker) (now : Time)
    → u.circuit_breaker ≡ b
    → HasValidBreaker b
    → IsValid (ask_breaker u b now).0
unfolding ask_breaker
ask_breaker-IsValid u none now e v = rw e tt
ask_breaker-IsValid u (some c) now e v = allow-IsValid c now v

pub try_acquire-IsValid : (u : Upstream) (now : Time) → IsValid u → IsValid (try_acquire u now).0
unfolding try_acquire
try_acquire-IsValid u now v = ground (arith, ask_breaker-IsValid u u.circuit_breaker now refl v)
