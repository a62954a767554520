-- ===== src/Proxy/Passive.antt =====
-- internal/proxy/passive_health.go. A method returns the new state; the log lines are left out, and
-- the mutex makes each method one step.
pub mod Laws
mod Examples
use go_mini_gateway.Common.{
  ℕ, ◌+◌, ◌*◌, ℤ, Text, Time, second, Bool, true, false, not, ◌||◌, Option, none, some, [], ltb,
  leb, ◌==◌, or_default, codes, if◌then◌else◌,
}

pub record PassiveHealthOptions : Type 0 where
  pub enabled : Bool
  pub failure_threshold : ℤ
  pub success_threshold : ℤ
  pub unhealthy_duration : ℤ

pub record PassiveHealth : Type 0 where
  pub route_id : Text
  pub upstream_id : Text
  pub failure_threshold : ℕ
  pub success_threshold : ℕ
  pub unhealthy_duration : ℕ
  pub unhealthy : Bool
  pub consecutive_failures : ℕ
  pub consecutive_successes : ℕ
  pub retry_after : Time
  pub last_failure_at : Time
  pub last_success_at : Time
  pub last_reason : Text

-- `nil`, when passive health is disabled, is `none`.
unfoldable pub new_passive_health_state : Text → Text → PassiveHealthOptions → Option PassiveHealth
new_passive_health_state route_id upstream_id options =
    if not options.enabled
    then none
    else some (record {
      route_id = route_id;
      upstream_id = upstream_id;
      failure_threshold = or_default options.failure_threshold 3;
      success_threshold = or_default options.success_threshold 1;
      unhealthy_duration = or_default options.unhealthy_duration (10 * second);
      unhealthy = false;
      consecutive_failures = 0;
      consecutive_successes = 0;
      retry_after = 0;
      last_failure_at = 0;
      last_success_at = 0;
      last_reason = [];
    })

unfoldable pub available : PassiveHealth → Time → Bool
available s now = if not s.unhealthy then true else not (ltb now s.retry_after)

recover_if_proven : PassiveHealth → PassiveHealth
recover_if_proven s =
    if leb s.success_threshold s.consecutive_successes
    then record s {
      unhealthy = false;
      retry_after = 0;
      last_reason = codes "recovered by passive health success";
      consecutive_successes = 0;
    }
    else s

success_counted : PassiveHealth → PassiveHealth
unfolding recover_if_proven
success_counted s =
    if not s.unhealthy
    then record s { consecutive_successes = 0 }
    else recover_if_proven (record s { consecutive_successes = s.consecutive_successes + 1 })

unfoldable pub record_success : PassiveHealth → Time → PassiveHealth
unfolding success_counted
record_success s now =
    success_counted (record s { last_success_at = now; consecutive_failures = 0 })

mark_if_failing : PassiveHealth → Time → PassiveHealth
mark_if_failing s now =
    if leb s.failure_threshold s.consecutive_failures
    then record s { unhealthy = true; retry_after = now + s.unhealthy_duration }
    else s

unfoldable pub record_failure : PassiveHealth → Time → Text → PassiveHealth
unfolding mark_if_failing
record_failure s now reason =
    mark_if_failing
      (record s {
        last_failure_at = now;
        last_reason = reason;
        consecutive_failures = s.consecutive_failures + 1;
        consecutive_successes = 0;
      })
      now

pub record PassiveHealthSnapshot : Type 0 where
  pub enabled : Bool
  pub healthy : Bool
  pub available : Bool
  pub consecutive_failures : ℕ
  pub consecutive_successes : ℕ
  pub failure_threshold : ℕ
  pub success_threshold : ℕ
  pub unhealthy_duration : Text
  pub retry_after : Text
  pub last_failure_at : Text
  pub last_success_at : Text
  pub last_reason : Text

-- `time.Time.Format` with the layout RFC3339Nano, and `time.Duration.String`, are parameters.
module _ (format : Time → Text) (duration_string : ℕ → Text) where
  unfoldable pub format_time : Time → Text
  format_time t = if t == 0 then [] else format t

  unfoldable pub snapshot : PassiveHealth → Time → PassiveHealthSnapshot
  unfolding format_time
  snapshot s now = record {
    enabled = true;
    healthy = not s.unhealthy;
    available = not s.unhealthy || not (ltb now s.retry_after);
    consecutive_failures = s.consecutive_failures;
    consecutive_successes = s.consecutive_successes;
    failure_threshold = s.failure_threshold;
    success_threshold = s.success_threshold;
    unhealthy_duration = duration_string s.unhealthy_duration;
    retry_after = format_time s.retry_after;
    last_failure_at = format_time s.last_failure_at;
    last_success_at = format_time s.last_success_at;
    last_reason = s.last_reason;
  }
