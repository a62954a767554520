-- ===== src/Server/AccessLog.antt =====
-- `accessLogMiddleware` of internal/server/middleware.go: what the inner handler does with the recorder is a
-- list of operations; the clock gives the cost. The log line is left out.
use go_mini_gateway.Common.{ℤ, pos, Text, Option, List, is_empty, if◌then◌else◌}
use go_mini_gateway.Metrics.Registry.{Registry, record_request}
use go_mini_gateway.Server.Recorder.{
  StatusRecorder, Call, Op, new_status_recorder, perform_all, status_code,
}
use go_mini_gateway.Server.RouteContext.{route_id_from_request}

-- How the inner handler ends.
pub data Served : Type 0 where
  returned : List Op → Served
  panicked : List Op → Served

-- The id that was set, or what the request says.
unfoldable pub logged_route_id : StatusRecorder → Option Text → Text → Text
unfolding route_id_from_request
logged_route_id r value path =
    if is_empty r.route_id then route_id_from_request value path else r.route_id

-- The value in the request's context, its path, the cost, and the inner handler; to the calls of the
-- client's writer and the registry. A panic goes on through the middleware.
unfoldable pub access_log_middleware :
    Option Registry → Option Text → Text → ℤ → Served → List Call × Option Registry
unfolding perform_all new_status_recorder status_code record_request logged_route_id
access_log_middleware registry value path cost (returned ops) =
    let (r, calls) = perform_all new_status_recorder ops in
    (
      calls,
      record_request registry (record {
        route_id = logged_route_id r value path;
        status_code = pos (status_code r);
        byte_written = r.bytes_written;
        latency = cost;
      }),
    )
access_log_middleware registry value path cost (panicked ops) =
    ((perform_all new_status_recorder ops).1, registry)
