-- ===== src/Proxy/Breaker/Examples.antt =====
-- The theorems on the circuit breaker at a breaker that opens after two failures, for ten nanoseconds,
-- and admits two probes, with tests.
use go_mini_gateway.Common.{
  ℕ, ◌+◌, ◌*◌, ◌≤◌, ◌≡◌, ◌⊎◌, ◌↔◌, refl, pos, negsuc, true, some, List, [], ◌∷◌, codes, arith, min,
  second,
}
use go_mini_gateway.Proxy.Outcome.{Outcome, success, failure, HasStreak}
use go_mini_gateway.Proxy.Breaker.{
  CircuitState, closed, opened, half_open, CircuitBreaker, CircuitBreakerOptions,
  new_circuit_breaker_state, allow, record_failure, record_success,
}
use go_mini_gateway.Proxy.Breaker.Invariant.{IsValid}
use go_mini_gateway.Proxy.Breaker.Trip.{record_outcome, record_outcomes, trips_iff}
use go_mini_gateway.Proxy.Breaker.HalfOpen.{
  allow_all, probe_successes, opened_admits, opened_recovers_iff,
}
use go_mini_gateway.Proxy.Breaker.Diagram.{
  Call, ask, succeed, fail, call, calls, Trigger, call-Trigger, new-calls-IsValid,
}
use go_mini_gateway.Proxy.Breaker.Probes.{
  World, pass, enter, finish_old, Reach, here, next, start, probes_bounded, old_success_overruns,
}

abbrev breaker_in : CircuitState → ℕ → CircuitBreaker
breaker_in s next_attempt_at = record {
  route_id = codes "api";
  upstream_id = codes "a";
  failure_threshold = 2;
  open_duration = 10;
  half_open_max_requests = 2;
  state = s;
  consecutive_failures = 0;
  half_open_in_flight = 0;
  half_open_successes = 0;
  next_attempt_at = next_attempt_at;
  last_failure_at = 3;
  last_success_at = 0;
  last_reason = [];
}

abbrev resting : CircuitBreaker
resting = breaker_in closed 0

abbrev tripped : CircuitBreaker
tripped = breaker_in opened 13

abbrev probing : CircuitBreaker
probing = breaker_in half_open 13

resting-IsValid : IsValid resting
resting-IsValid = record {
  threshold_pos = omega arith;
  duration_pos = omega arith;
  max_pos = omega arith;
  counts = (omega arith, refl, refl);
}

tripped-IsValid : IsValid tripped
tripped-IsValid = record {
  threshold_pos = omega arith;
  duration_pos = omega arith;
  max_pos = omega arith;
  counts = (refl, refl, refl);
}

abbrev outcomes : List Outcome
outcomes = failure 1 [] ∷ success 2 ∷ failure 3 [] ∷ failure 4 [] ∷ []

opens_test : (record_outcomes resting outcomes).state ≡ opened
unfolding record_outcomes record_failure record_success
opens_test = refl

trips_iff_example : ((record_outcomes resting outcomes).state ≡ opened) ↔ HasStreak 2 outcomes
trips_iff_example = trips_iff resting outcomes resting-IsValid refl refl

call-Trigger_example :
    (Trigger (ask 13) tripped × ((call tripped (ask 13)).state ≡ half_open))
    ⊎ ((¬ Trigger (ask 13) tripped) × ((call tripped (ask 13)).state ≡ opened))
call-Trigger_example = call-Trigger tripped (ask 13) tripped-IsValid

abbrev options : CircuitBreakerOptions
options = record {
  enabled = true;
  failure_threshold = pos 2;
  open_duration = negsuc 0;
  half_open_max_requests = pos 0;
}

abbrev made : CircuitBreaker
made = record resting {
  open_duration = 10 * second;
  half_open_max_requests = 1;
  last_failure_at = 0;
}

made_test : new_circuit_breaker_state (codes "api") (codes "a") options ≡ some made
unfolding new_circuit_breaker_state
made_test = refl

abbrev history : List Call
history = ask 1 ∷ fail 2 [] ∷ ask 3 ∷ fail 4 [] ∷ ask 10000000004 ∷ succeed 10000000005 ∷ []

new-calls-IsValid_example : IsValid (calls made history)
new-calls-IsValid_example = new-calls-IsValid (codes "api") (codes "a") options history made_test

opened_admits_example : (allow_all tripped (13 ∷ 14 ∷ 20 ∷ [])).1 ≡ min 3 2
opened_admits_example =
    opened_admits tripped (13 ∷ 14 ∷ 20 ∷ []) tripped-IsValid refl
      (omega arith, (omega arith, (omega arith, tt)))

opened_recovers_iff_example : ((probe_successes tripped (13 ∷ 14 ∷ [])).state ≡ closed) ↔ (2 ≤ 2)
opened_recovers_iff_example =
    opened_recovers_iff tripped (13 ∷ 14 ∷ []) tripped-IsValid refl (omega arith, (omega arith, tt))

-- A breaker that opens after one failure.
abbrev touchy : CircuitBreaker
touchy = record resting { failure_threshold = 1 }

-- It let a request through, which failed, and then a probe.
abbrev entered : CircuitBreaker
entered = (allow (record_failure (allow touchy 1).0 3 []) 13).0

abbrev one_probe : World
one_probe = record { breaker = entered; probes = 1; old = 0; stale = 0 }

one_probe_reached : Reach (start touchy 0) one_probe
unfolding allow record_failure record_outcome
one_probe_reached =
    next (next (next here (pass 1 refl)) (finish_old (failure 3 []) (omega arith)))
      (enter 13 refl refl)

entered_state : entered.state ≡ half_open
unfolding allow record_failure
entered_state = refl

entered_max : entered.half_open_max_requests ≡ 2
unfolding allow record_failure
entered_max = refl

probes_bounded_example : 1 ≤ entered.half_open_max_requests + 0
probes_bounded_example =
    probes_bounded touchy 0 one_probe refl (omega arith) one_probe_reached entered_state

abbrev full_up : World
full_up = record {
  breaker = record probing { half_open_in_flight = 2 };
  probes = 2;
  old = 1;
  stale = 0;
}

old_success_overruns_example :
    (u : World) × Reach full_up u
    × (u.breaker.state ≡ half_open)
    × (u.probes ≡ u.breaker.half_open_max_requests + 1)
old_success_overruns_example =
    old_success_overruns full_up 14 15 refl refl refl (omega arith) (omega arith)
