-- ===== src/Proxy/Snapshots.antt =====
-- What a handler shows and what it releases: `UpstreamSnapshots` and `CloseIdleConnections` of
-- internal/proxy/upstream.go. A handler is never nil; the idle connections of its transport are left out.
use mathlib.Core.Option
use go_mini_gateway.Common.{ℕ, Text, Time, Option, some, List, map}
use go_mini_gateway.Url.{Url}
use go_mini_gateway.Health.Checker
use go_mini_gateway.Health.Checker.{Checker}
use go_mini_gateway.Proxy.Passive
use go_mini_gateway.Proxy.Passive.{PassiveHealthSnapshot}
use go_mini_gateway.Proxy.Breaker
use go_mini_gateway.Proxy.Breaker.{CircuitBreakerSnapshot}
use go_mini_gateway.Proxy.Upstream.{Upstream, Handler}

pub record UpstreamSnapshot : Type 0 where
  pub id : Text
  pub url : Text
  pub active_health : Option Checker.Snapshot
  pub passive_health : Option PassiveHealthSnapshot
  pub circuit_breaker : Option CircuitBreakerSnapshot

-- `URL.String`, `time.Time.Format` with the layout RFC3339Nano and `time.Duration.String`.
pub record Formats : Type 0 where
  pub url_string : Url → Text
  pub time_string : Time → Text
  pub duration_string : ℕ → Text

module _ (f : Formats) where
  unfoldable pub snapshot_of : Time → Upstream → UpstreamSnapshot
  unfolding Checker.snapshot Passive.snapshot Breaker.snapshot
  snapshot_of now item = record {
    id = item.id;
    url = f.url_string item.url;
    active_health =
        Option.map (λ c. Checker.snapshot f.url_string f.time_string f.duration_string (some c))
          item.active_health;
    passive_health =
        Option.map (λ s. Passive.snapshot f.time_string f.duration_string s now)
          item.passive_health;
    circuit_breaker =
        Option.map (λ c. Breaker.snapshot f.time_string f.duration_string c now)
          item.circuit_breaker;
  }

  unfoldable pub upstream_snapshots : Handler → Time → List UpstreamSnapshot
  unfolding snapshot_of
  upstream_snapshots h now = map (snapshot_of now) h.upstreams

-- `item.activeHealth.Close()`
abbrev pub close_checker : Upstream → Upstream
close_checker u = record u { active_health = Option.map Checker.close u.active_health }

unfoldable pub close_idle_connections : Handler → Handler
unfolding Checker.close
close_idle_connections h = record h { upstreams = map close_checker h.upstreams }
