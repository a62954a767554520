-- ===== src/Lib.antt =====
-- Verification of go-mini-gateway, an HTTP gateway: routes with prefixes, each with upstreams that it
-- balances round robin behind active health checks, passive health and a circuit breaker, with a rate
-- limit and a concurrency limit in front.
--
-- The parts and their files. A request passes the middlewares of a route (internal/ratelimit,
-- internal/concurrency, internal/health) and comes to the handler of internal/proxy, which selects an
-- upstream, sends the request there, and reports the outcome to the upstream's passive health and breaker.
-- internal/config gives the options of all of them. internal/server loads the configuration, builds the
-- routes from it, exchanges them by a reload, and counts every request in internal/metrics.
-- - Common: names of the libraries, Boolean tests, integers, lists, errors as values, and texts with the
--   functions of Go's strings and strconv that the program calls. A text is the list of its code points.
-- - Http, Url: what the program uses of net/http and net/url: replies, handlers, a field of the state.
-- - Proxy.Breaker: internal/proxy/circuit_breaker.go (allow, recordSuccess, recordFailure, snapshot).
-- - Proxy.Passive: internal/proxy/passive_health.go.
-- - Proxy.Upstream: tryAcquire, recordSuccess, recordFailure, selectUpstream of internal/proxy/upstream.go.
-- - Proxy.Build: buildUpstreams and newActiveHealthChecker there, and New of internal/proxy/handler.go.
-- - Proxy.Handler: internal/proxy/handler.go and internal/proxy/proxy_error.go.
-- - Concurrency: internal/concurrency/limiter.go and middleware.go.
-- - RateLimit: internal/ratelimit/token_bucket.go and middleware.go.
-- - Health: internal/health/checker.go and middleware.go.
-- - Config: internal/config/env.go (Env, Expand) and config.go (Types, Normalize, Validate, Durations, Load).
-- - Proxy.Snapshots: UpstreamSnapshots and CloseIdleConnections of internal/proxy/upstream.go.
-- - Metrics: internal/metrics/registry.go (Registry, Snapshot) and prometheus.go (Prometheus).
-- - Server.Options, Server.Routes, Server.Runtime: internal/server/route_runtime.go and runtime.go.
-- - Server.Reload, Server.ReloadableHandler: internal/server/server.go, reload.go,
--   reloadable_handler.go, and the release of resources of lifecycle.go.
-- - Server.Recorder, Server.AccessLog, Server.RouteContext, Server.Auth: internal/server/middleware.go,
--   route_context.go and admin_auth.go.
-- - Server.Serving: requests in flight together through the handler that buildRuntime puts together, with the
--   objects that its closures share in a store.
-- - Server.Lifecycle, Server.Process: Start, Shutdown and Close of internal/server/lifecycle.go, and main of
--   cmd/gateway/main.go, from the file to the end of the process.
-- - Server.Admin, Server.Handlers, Server.System: internal/server/admin.go, admin_dto.go, pprof.go,
--   system_handlers.go, and the methods and answers of the endpoints.
-- - Backend: cmd/backend/main.go, and with another address cmd/backend2/main.go.
-- A handler that internal/server builds is a value that says what it wraps and with which limiter; the
-- middlewares themselves are functions on handlers in Concurrency, RateLimit and Health, and Server.Serving
-- lets requests go through that value.
-- The state of each part is a record with the fields of the Go struct; a method is a function to the new
-- state and the result; a nil pointer that a method accepts is none. Methods under a mutex, and operations
-- on channels and atomics, are single steps; the modules Probes, Interleaving, Flow, Atomics, Serving and
-- Process put these steps in any order as step relations, with counts of what happened.
--
-- Bounds and fuel. Times are nanoseconds since the zero time, as natural numbers, which do not overflow;
-- the round robin's counter is taken modulo 2^64. An int of the configuration is an integer without
-- bounds; the counters of the breaker and of passive health are natural numbers; those of
-- the metrics are the bit patterns of int64 numbers, modulo 2^64. A float64 of the metrics is the quotient
-- that it rounds, and the bounds of the histogram are nanoseconds. The scanner of
-- environment references runs on fuel, the length of the value, which is proved to be enough; the digits
-- of a number are printed with one more step than its value.
--
-- Parameters: url.Parse, time.ParseDuration, os.LookupEnv, os.ReadFile, json.Unmarshal, SHA-256, the text of
-- a time, a duration, an address or a float64, whether a http.ServeMux takes a pattern and what it makes
-- of a request, the answer of the backend to what is sent, the answer of the client of a health check, and
-- what ListenAndServe, Shutdown and Close of a net/http server return.
--
-- What httputil.ReverseProxy does around its hooks is written out as it documents it: it forwards informational
-- statuses, sends the answer 101 of an upgrade on the connection itself, calls ErrorHandler for an error of the
-- transport, and panics when the body of an answer breaks off. What a handler sends through Unwrap of the
-- status recorder is a list of calls that the recorder does not see. The objects of the routes are kept by
-- their ids, which a configuration that validate accepts has distinct.
--
-- Not modelled: log lines, texts of errors behind their kind, the transport and its pools, headers that
-- httputil.ReverseProxy handles by itself, the text of JSON, the deadline of a request's context, the
-- choice of a handler by the mux, an upgrade that fails, the fields upstreams and healthChecker of
-- routeRuntime, of which the first is always replaced by the snapshots of the proxy and the second never
-- assigned, and the listeners of the demonstration backends.
pub mod Common
pub mod Http
pub mod Url
pub mod Proxy
pub mod Concurrency
pub mod RateLimit
pub mod Health
pub mod Config
pub mod Metrics
pub mod Server
pub mod Backend
