-- ===== src/Proxy/Breaker/Invariant.antt =====
-- What holds of a circuit breaker between two calls of its methods.
use go_mini_gateway.Common.{
  ◌+◌, ◌≤◌, ◌<◌, ◌≡◌, Text, Time, some, arith, or_default_pos, second, ◌*◌,
}
use go_mini_gateway.Proxy.Breaker.{
  CircuitState, closed, opened, half_open, other, CircuitBreakerOptions, CircuitBreaker,
  new_circuit_breaker_state, allow, record_success, record_failure,
}

-- The counters that each state may hold.
abbrev pub Counts : CircuitState → CircuitBreaker → Type 0
Counts closed c =
    (c.consecutive_failures < c.failure_threshold)
    × (c.half_open_in_flight ≡ 0)
    × (c.half_open_successes ≡ 0)
Counts opened c =
    (c.half_open_in_flight ≡ 0)
    × (c.half_open_successes ≡ 0)
    × (c.next_attempt_at ≡ c.last_failure_at + c.open_duration)
Counts half_open c =
    (c.half_open_in_flight ≤ c.half_open_max_requests)
    × (c.half_open_successes < c.half_open_max_requests)
Counts (other _) c = ⊥

pub record IsValid (c : CircuitBreaker) : Type 0 where
  pub threshold_pos : 0 < c.failure_threshold
  pub duration_pos : 0 < c.open_duration
  pub max_pos : 0 < c.half_open_max_requests
  pub counts : Counts c.state c

pub new-IsValid :
    (route_id upstream_id : Text) (o : CircuitBreakerOptions) {c : CircuitBreaker}
    → new_circuit_breaker_state route_id upstream_id o ≡ some c
    → IsValid c
unfolding new_circuit_breaker_state
new-IsValid route_id upstream_id o h = ground (
  arith,
  or_default_pos o.failure_threshold 5 (omega arith),
  or_default_pos o.open_duration (10 * second) (omega arith),
  or_default_pos o.half_open_max_requests 1 (omega arith),
)

pub allow-IsValid : (c : CircuitBreaker) (now : Time) → IsValid c → IsValid (allow c now).0
unfolding allow
allow-IsValid c now v = ground arith

pub record_success-IsValid :
    (c : CircuitBreaker) (now : Time) → IsValid c → IsValid (record_success c now)
unfolding record_success
record_success-IsValid c now v = ground arith

pub record_failure-IsValid :
    (c : CircuitBreaker) (now : Time) (reason : Text)
    → IsValid c
    → IsValid (record_failure c now reason)
unfolding record_failure
record_failure-IsValid c now reason v = ground arith
