-- ===== src/Proxy/Breaker.antt =====
-- internal/proxy/circuit_breaker.go. A method returns the new state; `now` and `reason` are its
-- arguments as in the source. The mutex makes each method one step; the log lines are left out.
pub mod Invariant
pub mod Trip
pub mod HalfOpen
pub mod Probes
pub mod Diagram
mod Examples
use go_mini_gateway.Common.{
  ℕ, ◌+◌, ◌-◌, ℤ, Text, Time, second, Bool, true, false, not, Option, none, some, [], ltb, leb,
  or_default, codes, ◌==◌, if◌then◌else◌, ◌*◌,
}

-- The string field `state`; `other` stands for any string but the three constants.
pub data CircuitState : Type 0 where
  closed opened half_open : CircuitState
  other : Text → CircuitState

pub record CircuitBreakerOptions : Type 0 where
  pub enabled : Bool
  pub failure_threshold : ℤ
  pub open_duration : ℤ
  pub half_open_max_requests : ℤ

pub record CircuitBreaker : Type 0 where
  pub route_id : Text
  pub upstream_id : Text
  pub failure_threshold : ℕ
  pub open_duration : ℕ
  pub half_open_max_requests : ℕ
  pub state : CircuitState
  pub consecutive_failures : ℕ
  pub half_open_in_flight : ℕ
  pub half_open_successes : ℕ
  pub next_attempt_at : Time
  pub last_failure_at : Time
  pub last_success_at : Time
  pub last_reason : Text

-- `nil`, when the breaker is disabled, is `none`.
unfoldable pub new_circuit_breaker_state :
    Text → Text → CircuitBreakerOptions → Option CircuitBreaker
new_circuit_breaker_state route_id upstream_id options =
    if not options.enabled
    then none
    else some (record {
      route_id = route_id;
      upstream_id = upstream_id;
      failure_threshold = or_default options.failure_threshold 5;
      open_duration = or_default options.open_duration (10 * second);
      half_open_max_requests = or_default options.half_open_max_requests 1;
      state = closed;
      consecutive_failures = 0;
      half_open_in_flight = 0;
      half_open_successes = 0;
      next_attempt_at = 0;
      last_failure_at = 0;
      last_success_at = 0;
      last_reason = [];
    })

-- The case `half_open` of `allow`, which the case `open` falls through to.
allow_half_open : CircuitBreaker → CircuitBreaker × Bool
allow_half_open c =
    if leb c.half_open_max_requests c.half_open_in_flight
    then (c, false)
    else (record c { half_open_in_flight = c.half_open_in_flight + 1 }, true)

abbrev enter_reason : Text
enter_reason = codes "enter half-open after open duration"

allow_in : CircuitState → CircuitBreaker → Time → CircuitBreaker × Bool
unfolding allow_half_open
allow_in closed c now = (c, true)
allow_in opened c now =
    if ltb now c.next_attempt_at
    then (c, false)
    else allow_half_open (record c {
      state = half_open;
      half_open_in_flight = 0;
      half_open_successes = 0;
      last_reason = enter_reason;
    })
allow_in half_open c now = allow_half_open c
allow_in (other _) c now = (record c { state = closed }, true)

unfoldable pub allow : CircuitBreaker → Time → CircuitBreaker × Bool
unfolding allow_in
allow c now = allow_in c.state c now

unfoldable pub open_locked : CircuitBreaker → Time → Text → CircuitBreaker
open_locked c now reason = record c {
  state = opened;
  next_attempt_at = now + c.open_duration;
  half_open_in_flight = 0;
  half_open_successes = 0;
  last_reason = reason;
}

unfoldable pub close_locked : CircuitBreaker → Text → CircuitBreaker
close_locked c reason = record c {
  state = closed;
  consecutive_failures = 0;
  half_open_in_flight = 0;
  half_open_successes = 0;
  next_attempt_at = 0;
  last_reason = reason;
}

-- `if c.halfOpenInFlight > 0 { c.halfOpenInFlight-- }`
release_slot : CircuitBreaker → CircuitBreaker
release_slot c =
    if ltb 0 c.half_open_in_flight
    then record c { half_open_in_flight = c.half_open_in_flight - 1 }
    else c

count_success : CircuitBreaker → CircuitBreaker
count_success c = record c { half_open_successes = c.half_open_successes + 1 }

close_if_recovered : CircuitBreaker → CircuitBreaker
unfolding close_locked
close_if_recovered c =
    if leb c.half_open_max_requests c.half_open_successes
    then close_locked c (codes "recovered by half-open successes")
    else c

record_success_in : CircuitState → CircuitBreaker → CircuitBreaker
unfolding release_slot count_success close_if_recovered
record_success_in closed c = record c { consecutive_failures = 0 }
record_success_in half_open c = close_if_recovered (count_success (release_slot c))
record_success_in opened c = c
record_success_in (other _) c = c

unfoldable pub record_success : CircuitBreaker → Time → CircuitBreaker
unfolding record_success_in
record_success c now = record_success_in c.state (record c { last_success_at = now })

open_if_failing : CircuitBreaker → Time → Text → CircuitBreaker
unfolding open_locked
open_if_failing c now reason =
    if leb c.failure_threshold c.consecutive_failures then open_locked c now reason else c

record_failure_in : CircuitState → CircuitBreaker → Time → Text → CircuitBreaker
unfolding open_if_failing open_locked release_slot
record_failure_in closed c now reason =
    open_if_failing (record c { consecutive_failures = c.consecutive_failures + 1 }) now reason
record_failure_in half_open c now reason = open_locked (release_slot c) now reason
record_failure_in opened c now reason = record c { next_attempt_at = now + c.open_duration }
record_failure_in (other _) c now reason = c

unfoldable pub record_failure : CircuitBreaker → Time → Text → CircuitBreaker
unfolding record_failure_in
record_failure c now reason =
    record_failure_in c.state (record c { last_failure_at = now; last_reason = reason }) now reason

pub record CircuitBreakerSnapshot : Type 0 where
  pub enabled : Bool
  pub state : CircuitState
  pub available : Bool
  pub consecutive_failures : ℕ
  pub failure_threshold : ℕ
  pub open_duration : Text
  pub half_open_max_requests : ℕ
  pub half_open_in_flight : ℕ
  pub half_open_successes : ℕ
  pub next_attempt_at : Text
  pub last_failure_at : Text
  pub last_success_at : Text
  pub last_reason : Text

available_in : CircuitState → CircuitBreaker → Time → Bool
available_in opened c now = not (ltb now c.next_attempt_at)
available_in half_open c now = ltb c.half_open_in_flight c.half_open_max_requests
available_in closed c now = true
available_in (other _) c now = true

-- `time.Time.Format` with the layout RFC3339Nano, and `time.Duration.String`, are parameters.
module _ (format : Time → Text) (duration_string : ℕ → Text) where
  -- The empty text for the zero time.
  format_time : Time → Text
  format_time t = if t == 0 then [] else format t

  unfoldable pub snapshot : CircuitBreaker → Time → CircuitBreakerSnapshot
  unfolding available_in format_time
  snapshot c now = record {
    enabled = true;
    state = c.state;
    available = available_in c.state c now;
    consecutive_failures = c.consecutive_failures;
    failure_threshold = c.failure_threshold;
    open_duration = duration_string c.open_duration;
    half_open_max_requests = c.half_open_max_requests;
    half_open_in_flight = c.half_open_in_flight;
    half_open_successes = c.half_open_successes;
    next_attempt_at = format_time c.next_attempt_at;
    last_failure_at = format_time c.last_failure_at;
    last_success_at = format_time c.last_success_at;
    last_reason = c.last_reason;
  }
