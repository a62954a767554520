-- ===== src/Server/System.antt =====
-- internal/server/system_handlers.go, and the methods that the handlers of the administration answer.
use go_mini_gateway.Common.{Text, not, [], ◌∷◌, text_eq, codes, if◌then◌else◌}
use go_mini_gateway.Http.{Reply, reply, http_error}

abbrev pub method_not_allowed : Reply
method_not_allowed = http_error [] (codes "method not allowed") 405

-- The body with the status 200, and the type that net/http finds for it.
text : Text → Reply
text body = reply (record {
  status = 200;
  headers = (codes "Content-Type", codes "text/plain; charset=utf-8") ∷ [];
  body = body;
})

unfoldable pub handle_ping : Text → Reply
unfolding text text_eq
handle_ping method =
    if not (text_eq method (codes "GET")) then method_not_allowed else text (codes "pong")

unfoldable pub handle_health : Text → Reply
unfolding text text_eq
handle_health method =
    if not (text_eq method (codes "GET")) then method_not_allowed else text (codes "ok")

unfoldable pub handle_version : Text → Reply
unfolding text text_eq
handle_version method =
    if not (text_eq method (codes "GET"))
    then method_not_allowed
    else text (codes "go-mini-gateway v0.1.0")
