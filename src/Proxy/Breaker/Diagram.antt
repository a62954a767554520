-- ===== src/Proxy/Breaker/Diagram.antt =====
-- The three states as a diagram, and every breaker that a sequence of calls reaches.
use go_mini_gateway.Common.{◌+◌, ◌≤◌, ◌≡◌, ◌⊎◌, Text, Time, List, [], ◌∷◌, arith, some}
use go_mini_gateway.Proxy.Breaker.{
  CircuitState, closed, opened, half_open, CircuitBreakerOptions, CircuitBreaker,
  new_circuit_breaker_state, allow, record_success, record_failure,
}
use go_mini_gateway.Proxy.Breaker.Invariant.{
  IsValid, new-IsValid, allow-IsValid, record_success-IsValid, record_failure-IsValid,
}

-- A call of one of the three methods that change the breaker.
pub data Call : Type 0 where
  ask : Time → Call
  succeed : Time → Call
  fail : Time → Text → Call

unfoldable pub call : CircuitBreaker → Call → CircuitBreaker
call c (ask now) = (allow c now).0
call c (succeed now) = record_success c now
call c (fail now reason) = record_failure c now reason

-- When a call moves the state, and where to.
abbrev pub Trigger : Call → CircuitBreaker → Type 0
Trigger (ask now) c = (c.state ≡ opened) × (c.next_attempt_at ≤ now)
Trigger (succeed now) c =
    (c.state ≡ half_open) × (c.half_open_max_requests ≤ c.half_open_successes + 1)
Trigger (fail now reason) c =
    ((c.state ≡ closed) × (c.failure_threshold ≤ c.consecutive_failures + 1))
    ⊎ (c.state ≡ half_open)

abbrev pub target : Call → CircuitState
target (ask _) = half_open
target (succeed _) = closed
target (fail _ _) = opened

-- Of a valid breaker, a call moves the state exactly when its trigger holds, and then to its target:
-- open to half-open by a request at or after the next attempt, half-open to closed by the last
-- success that is missing, closed to open by the failure that reaches the threshold, and half-open
-- to open by any failure.
pub call-Trigger :
    (c : CircuitBreaker) (e : Call)
    → IsValid c
    → (Trigger e c × ((call c e).state ≡ target e))
      ⊎ ((¬ Trigger e c) × ((call c e).state ≡ c.state))
unfolding call allow record_success record_failure
call-Trigger c (ask now) v = ground arith
call-Trigger c (succeed now) v = ground arith
call-Trigger c (fail now reason) v = ground arith

unfoldable pub calls : CircuitBreaker → List Call → CircuitBreaker
unfolding call
calls c [] = c
calls c (e ∷ es) = calls (call c e) es

call-IsValid : (c : CircuitBreaker) (e : Call) → IsValid c → IsValid (call c e)
unfolding call
call-IsValid c (ask now) v = allow-IsValid c now v
call-IsValid c (succeed now) v = record_success-IsValid c now v
call-IsValid c (fail now reason) v = record_failure-IsValid c now reason v

pub calls-IsValid : (es : List Call) (c : CircuitBreaker) → IsValid c → IsValid (calls c es)
unfolding calls
calls-IsValid [] c v = v
calls-IsValid (e ∷ es) c v = calls-IsValid es (call c e) (call-IsValid c e v)

-- A breaker built from any options, negative or zero ones included, is valid after any calls: its
-- limits are positive; closed, its failures are below the threshold; open, its next attempt is the
-- last failure plus the open duration; half-open, its slots and successes are within the maximum.
pub new-calls-IsValid :
    (route_id upstream_id : Text) (o : CircuitBreakerOptions) (es : List Call) {c : CircuitBreaker}
    → new_circuit_breaker_state route_id upstream_id o ≡ some c
    → IsValid (calls c es)
new-calls-IsValid route_id upstream_id o es {c} h =
    calls-IsValid es c (new-IsValid route_id upstream_id o h)
