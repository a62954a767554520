-- ===== src/Proxy/Upstream/Examples.antt =====
-- The theorems on the selection at small lists of upstreams: plain ones, one whose breaker is open, and
-- one whose last check was unhealthy.
use go_mini_gateway.Common.{
  ℕ, zero, suc, ◌+◌, ◌-◌, ◌%◌, ◌<◌, ◌≡◌, refl, Time, true, false, none, some, List, [], ◌∷◌, codes,
  arith,
}
use go_mini_gateway.Url.{Url}
use go_mini_gateway.Health.Checker
use go_mini_gateway.Health.Checker.{Checker}
use go_mini_gateway.Proxy.Breaker
use go_mini_gateway.Proxy.Breaker.{CircuitBreaker, opened}
use go_mini_gateway.Proxy.Upstream.{
  Upstream, Handler, try_acquire, u64, index_of, select_from, select_upstream,
}
use go_mini_gateway.Proxy.Upstream.Acquire.{IsValid}
use go_mini_gateway.Proxy.Upstream.Select.{Refuses, Takes, select_upstream-some}
use go_mini_gateway.Proxy.Upstream.Fair.{IsReady, wrap_skips_last}

abbrev address : Url
address = record {
  scheme = codes "http";
  host = codes "a:80";
  path = [];
  raw_path = [];
  raw_query = [];
  rest = [];
}

abbrev plain : Upstream
plain = record {
  id = codes "a";
  url = address;
  active_health = none;
  passive_health = none;
  circuit_breaker = none;
}

abbrev breaker : CircuitBreaker
breaker = record {
  route_id = codes "api";
  upstream_id = codes "a";
  failure_threshold = 2;
  open_duration = 10;
  half_open_max_requests = 2;
  state = opened;
  consecutive_failures = 2;
  half_open_in_flight = 0;
  half_open_successes = 0;
  next_attempt_at = 13;
  last_failure_at = 3;
  last_success_at = 0;
  last_reason = [];
}

abbrev broken : Upstream
broken = record plain { circuit_breaker = some breaker }

broken-IsValid : IsValid broken
broken-IsValid = record {
  threshold_pos = omega arith;
  duration_pos = omega arith;
  max_pos = omega arith;
  counts = (refl, refl, refl);
}

abbrev checker : Checker
checker = record {
  name = codes "a";
  target = address;
  path = codes "/health";
  interval = 5;
  timeout = 1;
  checked = true;
  healthy = false;
  last_check_at = 2;
  last_reason = [];
  done = false;
  looping = true;
}

abbrev ill : Upstream
ill = record plain { active_health = some checker }

abbrev route_with : List Upstream → ℕ → Handler
route_with us n = record {
  route_id = codes "api";
  strip_prefix = codes "/api";
  upstreams = us;
  next_index = n;
}

abbrev clock : ℕ → Time
clock _ = 5

-- The first upstream is open, so the second one is taken.
taken_test :
    select_upstream (route_with (broken ∷ plain ∷ []) 0) clock
    ≡ (route_with (broken ∷ plain ∷ []) 1, some 1)
unfolding select_upstream select_from index_of try_acquire Checker.available Breaker.allow
taken_test = refl

select_upstream-some_example :
    (k : ℕ) × (u : Upstream) × (k < 2)
    × Takes clock 0 (broken ∷ plain ∷ []) k (broken ∷ plain ∷ []) 1 u
    × (1 ≡ (0 + 1) % u64)
select_upstream-some_example =
    select_upstream-some (route_with (broken ∷ plain ∷ []) 0) (route_with (broken ∷ plain ∷ []) 1)
      clock 1 (broken-IsValid, (tt, tt)) (omega arith) taken_test

plain-IsReady : IsReady plain
unfolding try_acquire Checker.available
plain-IsReady now = refl

ill-Refuses : (j : ℕ) (now : Time) → j + 1 < 3 → Refuses (ill ∷ ill ∷ plain ∷ []) j now
unfolding try_acquire Checker.available
ill-Refuses zero now h u e = ground arith
ill-Refuses (suc zero) now h u e = ground arith
ill-Refuses (suc (suc j)) now h u e = absurd (omega arith)

-- The last upstream would accept, and is not asked.
wrap_skips_last_example :
    (select_upstream (route_with (ill ∷ ill ∷ plain ∷ []) (u64 - 1)) clock).1 ≡ none
wrap_skips_last_example =
    wrap_skips_last (route_with (ill ∷ ill ∷ plain ∷ []) (u64 - 1)) clock (tt, (tt, (tt, tt))) refl
      (omega arith) refl ill-Refuses
