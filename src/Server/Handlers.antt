-- ===== src/Server/Handlers.antt =====
-- The handlers of internal/server/admin.go and of the reload, behind the check of the token: the method, and
-- the value that is written as JSON with its status. A panic of a reload is one of the handler.
use mathlib.Core.Option
use go_mini_gateway.Common.{
  ℕ, ℤ, Text, Time, Bool, true, false, not, Option, none, some, List, [], ◌∷◌, text_eq, codes,
  if◌then◌else◌,
}
use go_mini_gateway.Url.{Url}
use go_mini_gateway.Config.Types.{Config}
use go_mini_gateway.Metrics.Registry.{Registry}
use go_mini_gateway.Metrics.Snapshot.{Fraction, Snapshot, snapshot}
use go_mini_gateway.Metrics.Prometheus.Families.{prometheus_text}
use go_mini_gateway.Proxy.Snapshots.{Formats}
use go_mini_gateway.Http.{Reply, reply}
use go_mini_gateway.Server.Outcome.{Outcome, failed, panicked, done}
use go_mini_gateway.Server.System.{method_not_allowed}
use go_mini_gateway.Server.Admin.{
  RouteDto, HealthDto, StatusDto, route_dtos, health_dtos, status_dto,
}
use go_mini_gateway.Server.Reload.{Server, ReloadError, Released, no_resources, reload}

pub data JsonReply (A : Type 0) : Type 0 where
  text_reply : Reply → JsonReply A
  json_reply : ℕ → A → JsonReply A
  panic_reply : JsonReply A

-- `if r.Method != http.MethodGet { ... return }`, and the value else.
abbrev for_get : {A : Type 0} → Text → A → JsonReply A
for_get method a =
    if not (text_eq method (codes "GET")) then text_reply method_not_allowed else json_reply 200 a

unfoldable pub handle_admin_routes : Formats → Time → Text → Server → JsonReply (List RouteDto)
unfolding route_dtos text_eq
handle_admin_routes f now method s = for_get method (route_dtos f now s.routes)

unfoldable pub handle_admin_health : Formats → Time → Text → Server → JsonReply (List HealthDto)
unfolding health_dtos text_eq
handle_admin_health f now method s = for_get method (health_dtos f now s.routes)

unfoldable pub handle_admin_stats : Text → Server → JsonReply StatusDto
unfolding status_dto text_eq
handle_admin_stats method s =
    for_get method (status_dto s.global_rate_limiter s.global_concurrency_limiter s.routes)

-- None is the empty object of a missing registry.
unfoldable pub handle_admin_metrics :
    (ℕ → Text) → Time → Text → Option Registry → JsonReply (Option Snapshot)
unfolding snapshot text_eq
handle_admin_metrics duration_string now method registry =
    for_get method (Option.map (λ r. snapshot duration_string r now) registry)

unfoldable pub handle_prometheus_metrics :
    (Fraction → Text) → (Fraction → Text) → (ℕ → Text) → Time → Text → Option Registry → Reply
unfolding prometheus_text text_eq
handle_prometheus_metrics format_6 format_9 duration_string now method registry =
    if not (text_eq method (codes "GET"))
    then method_not_allowed
    else reply (record {
      status = 200;
      headers = (codes "Content-Type", codes "text/plain; version=0.0.4; charset=utf-8") ∷ [];
      body = prometheus_text format_6 format_9 duration_string registry now;
    })

-- The text of the error is left out.
pub record ReloadResultDto : Type 0 where
  pub success : Bool
  pub message : Option ReloadError
  pub reloaded_at : Text
  pub routes : List RouteDto

reload_answer : Text → Outcome ReloadError (List RouteDto) → JsonReply ReloadResultDto
reload_answer at_ (failed e) =
    json_reply 400 (record { success = false; message = some e; reloaded_at = at_; routes = [] })
reload_answer at_ panicked = panic_reply
reload_answer at_ (done routes) =
    json_reply 200 (record { success = true; message = none; reloaded_at = at_; routes = routes })

module _ (accepts : List Text → Text → Bool) (parse_url : Text → Option Url)
    (parse_duration : Text → Option ℤ) (read_file : Text → Option Text)
    (unmarshal : Text → Option Config) (lookup_env : Text → Option Text) where
  unfoldable pub handle_admin_reload :
      Formats → Time → Text → Server → Server × Released × JsonReply ReloadResultDto
  unfolding reload reload_answer text_eq
  handle_admin_reload f now method s =
      let (s', released, answer) =
        reload accepts parse_url parse_duration read_file unmarshal lookup_env f now s in
      if not (text_eq method (codes "POST"))
      then (s, no_resources, text_reply method_not_allowed)
      else (s', released, reload_answer (f.time_string now) answer)
