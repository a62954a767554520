-- ===== src/Proxy/Passive/Examples.antt =====
-- The theorems on passive health at a state that counts two failures and two successes.
use go_mini_gateway.Common.{◌≡◌, refl, pos, true, false, some, [], codes, arith}
use go_mini_gateway.Proxy.Passive.{PassiveHealth, PassiveHealthOptions, new_passive_health_state}
use go_mini_gateway.Proxy.Passive.Laws.{IsValid}

abbrev options : PassiveHealthOptions
options = record {
  enabled = true;
  failure_threshold = pos 2;
  success_threshold = pos 2;
  unhealthy_duration = pos 10;
}

abbrev healthy : PassiveHealth
healthy = record {
  route_id = codes "api";
  upstream_id = codes "a";
  failure_threshold = 2;
  success_threshold = 2;
  unhealthy_duration = 10;
  unhealthy = false;
  consecutive_failures = 0;
  consecutive_successes = 0;
  retry_after = 0;
  last_failure_at = 0;
  last_success_at = 0;
  last_reason = [];
}

abbrev ill : PassiveHealth
ill = record healthy { unhealthy = true; retry_after = 13 }

made_test : new_passive_health_state (codes "api") (codes "a") options ≡ some healthy
unfolding new_passive_health_state
made_test = refl

ill-IsValid : IsValid ill
ill-IsValid = record {
  failures_pos = omega arith;
  successes_pos = omega arith;
  duration_pos = omega arith;
  healthy_counts = λ e. cc;
  unhealthy_counts = λ _. omega arith;
}
