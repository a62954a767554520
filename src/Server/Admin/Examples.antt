-- ===== src/Server/Admin/Examples.antt =====
-- The theorems on the administration at a token, and at a route whose only upstream is down.
use go_mini_gateway.Common.{
  ◌≡◌, ◌≢◌, ◌⊎◌, refl, Text, Time, true, false, none, some, [], ◌∷◌, All, codes,
}
use go_mini_gateway.Http.{Handler, reply}
use go_mini_gateway.Health.Checker.{Checker}
use go_mini_gateway.Proxy.Upstream
use go_mini_gateway.Proxy.Upstream.{try_acquire}
use go_mini_gateway.Proxy.Snapshots.{Formats, upstream_snapshots}
use go_mini_gateway.Server.Admin.{health_dto}
use go_mini_gateway.Server.Auth.{
  admin_auth_middleware, not_configured, unauthorized, admin_auth_middleware_lem,
}
use go_mini_gateway.Server.Admin.Health.{unhealthy_refuses}
use go_mini_gateway.Server.Sample.{url}

abbrev same : Text → Text
same t = t

-- A request is the token that it presents.
abbrev presented : Text → Text → Text
presented r name = r

abbrev inner : Handler Text Unit
inner _ s = (reply (record { status = 200; headers = []; body = codes "ok" }), s)

admin_auth_middleware_lem_example :
    ((codes "t" ≡ [])
      × (admin_auth_middleware same presented (codes "t") inner (codes "u") tt
          ≡ (not_configured, tt)))
    ⊎ ((codes "t" ≢ [])
        × (codes "u" ≢ codes "t")
        × (admin_auth_middleware same presented (codes "t") inner (codes "u") tt
            ≡ (unauthorized, tt)))
    ⊎ ((codes "t" ≢ [])
        × (codes "u" ≡ codes "t")
        × (admin_auth_middleware same presented (codes "t") inner (codes "u") tt
            ≡ inner (codes "u") tt))
admin_auth_middleware_lem_example =
    admin_auth_middleware_lem same presented (codes "t") inner (codes "u") tt (λ e. e)

abbrev down : Checker
down = record {
  name = codes "a/u";
  target = url;
  path = codes "/health";
  interval = 5;
  timeout = 1;
  checked = true;
  healthy = false;
  last_check_at = 7;
  last_reason = [];
  done = false;
  looping = true;
}

abbrev handler : Upstream.Handler
handler = record {
  route_id = codes "a";
  strip_prefix = [];
  upstreams =
      record {
        id = codes "u";
        url = url;
        active_health = some down;
        passive_health = none;
        circuit_breaker = none;
      }
      ∷ [];
  next_index = 0;
}

abbrev formats : Formats
formats = record { url_string = λ _. []; time_string = λ _. []; duration_string = λ _. [] }

unhealthy :
    (health_dto (codes "a") (codes "http://h") (upstream_snapshots formats handler 9)).healthy
    ≡ false
unfolding health_dto upstream_snapshots
unhealthy = refl

unhealthy_refuses_example : All (λ u. (t : Time) → (try_acquire u t).1 ≡ false) handler.upstreams
unhealthy_refuses_example =
    unhealthy_refuses formats 9 handler (codes "a") (codes "http://h") ((λ e. cc), tt) unhealthy
