-- ===== src/Proxy/Handler/Examples.antt =====
-- The theorems on the proxy's handler at a route with one upstream, whose breaker opens after two
-- failures.
use go_mini_gateway.Common.{◌≡◌, refl, false, none, some, [], ◌∷◌, ◌++◌, codes, arith}
use go_mini_gateway.Proxy.Breaker.{CircuitBreaker, closed}
use go_mini_gateway.Proxy.Upstream.{Upstream, Handler}
use go_mini_gateway.Proxy.Handler.{rewrite_path, responded, failed, no_upstream}
use go_mini_gateway.Proxy.Handler.Serve.{Trial, serve, serve_all, Alone, outage}

rewrite_path_test : rewrite_path (codes "/api/users") (codes "/api") ≡ codes "/users"
unfolding rewrite_path
rewrite_path_test = refl

abbrev breaker : CircuitBreaker
breaker = record {
  route_id = codes "api";
  upstream_id = codes "a";
  failure_threshold = 2;
  open_duration = 10;
  half_open_max_requests = 1;
  state = closed;
  consecutive_failures = 0;
  half_open_in_flight = 0;
  half_open_successes = 0;
  next_attempt_at = 0;
  last_failure_at = 0;
  last_success_at = 0;
  last_reason = [];
}

abbrev upstream : Upstream
upstream = record {
  id = codes "a";
  url = record {
    scheme = codes "http";
    host = codes "a:80";
    path = [];
    raw_path = [];
    raw_query = [];
    rest = [];
  };
  active_health = none;
  passive_health = none;
  circuit_breaker = some breaker;
}

abbrev alone : Handler
alone = record {
  route_id = codes "api";
  strip_prefix = codes "/api";
  upstreams = upstream ∷ [];
  next_index = 0;
}

alone-Alone : Alone alone breaker
alone-Alone = record {
  upstream = upstream;
  only = refl;
  active = refl;
  passive = refl;
  breaker = refl;
}

abbrev answered_500 : Trial
answered_500 = record {
  request = record { method = codes "GET"; path = codes "/api/users"; trace_id = codes "t" };
  backend = λ _. responded (record { status = 500; headers = []; body = [] });
  asked = 1;
  sent = 2;
  received = 3;
}

abbrev refused : Trial
refused = record answered_500 {
  backend = λ _. failed (record {
    deadline_exceeded = false;
    net_timeout = none;
    message = codes "connection refused";
  });
  asked = 4;
  sent = 5;
  received = 6;
}

abbrev later : Trial
later = record answered_500 {
  backend = λ _. responded (record { status = 200; headers = []; body = [] });
  asked = 15;
}

outage_example :
    let g = serve_all alone (answered_500 ∷ [] ++ refused ∷ []) in
    (serve g later).1 ≡ some (no_upstream g)
outage_example =
    outage alone breaker (answered_500 ∷ []) refused later alone-Alone refl refl
      (λ _. omega arith, tt) (λ _. tt) refl (omega arith)
