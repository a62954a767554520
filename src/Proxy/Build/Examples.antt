-- ===== src/Proxy/Build/Examples.antt =====
-- The construction of a handler at one upstream with a circuit breaker.
use go_mini_gateway.Common.{
  ◌<◌, ◌≡◌, refl, pos, true, false, none, some, [], ◌∷◌, codes, length, All, trim_space, ok,
}
use go_mini_gateway.Url.{Url}
use go_mini_gateway.Proxy.Passive.{new_passive_health_state}
use go_mini_gateway.Proxy.Breaker.{closed, new_circuit_breaker_state}
use go_mini_gateway.Proxy.Upstream.{Handler}
use go_mini_gateway.Proxy.Build.{
  Options, new, effective_upstreams, new_active_health_checker, upstream_id, build_upstream,
  build_upstreams,
}
use go_mini_gateway.Proxy.Build.Laws.{IsUsable, new-IsUsable}

abbrev address : Url
address = record {
  scheme = codes "http";
  host = codes "a:80";
  path = [];
  raw_path = [];
  raw_query = [];
  rest = [];
}

abbrev options : Options
options = record {
  route_id = codes "api";
  target = codes "http://a:80";
  upstreams = record { id = codes " a "; url = codes "http://a:80" } ∷ [];
  strip_prefix = codes "/api";
  active_health = record { enabled = false; path = []; interval = pos 0; timeout = pos 0 };
  passive_health = record {
    enabled = false;
    failure_threshold = pos 0;
    success_threshold = pos 0;
    unhealthy_duration = pos 0;
  };
  circuit_breaker = record {
    enabled = true;
    failure_threshold = pos 2;
    open_duration = pos 10;
    half_open_max_requests = pos 0;
  };
}

abbrev made : Handler
made = record {
  route_id = codes "api";
  strip_prefix = codes "/api";
  upstreams =
      record {
        id = codes "a";
        url = address;
        active_health = none;
        passive_health = none;
        circuit_breaker = some (record {
          route_id = codes "api";
          upstream_id = codes "a";
          failure_threshold = 2;
          open_duration = 10;
          half_open_max_requests = 1;
          state = closed;
          consecutive_failures = 0;
          half_open_in_flight = 0;
          half_open_successes = 0;
          next_attempt_at = 0;
          last_failure_at = 0;
          last_success_at = 0;
          last_reason = [];
        });
      }
      ∷ [];
  next_index = 0;
}

made_test : new (λ _. some address) options ≡ ok made
unfolding new build_upstreams build_upstream upstream_id trim_space effective_upstreams
    new_active_health_checker new_passive_health_state new_circuit_breaker_state
made_test = refl

new-IsUsable_example :
    (0 < length made.upstreams)
    × (length made.upstreams ≡ length (effective_upstreams options))
    × All IsUsable made.upstreams
    × (made.next_index ≡ 0)
new-IsUsable_example = new-IsUsable (λ _. some address) options made made_test
