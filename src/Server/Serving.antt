-- ===== src/Server/Serving.antt =====
-- Requests through the handler that `buildRuntime` of internal/server/runtime.go puts together: the access
-- log, the limiters of the process, the deadline, the mux, and per route withRouteID, its limiters and the
-- proxy. A closure holds a pointer to its limiter or proxy; here the store holds these objects, limiters by
-- the names they were built with, "global" or "route:" and the id, and proxies by the id of the route; the
-- ids are distinct in a configuration that validate accepts, and buildRuntime, called with another one,
-- makes an object for each route, which the store does not tell apart. The requests are in flight together,
-- and each call of a limiter, a proxy or the registry is one step. What the mux makes of a request is the
-- parameter `dispatch`.
pub mod World
pub mod Places
pub mod Ends
pub mod Upstreams
pub mod Waiting
pub mod Built
pub mod Quiet
pub mod Named
pub mod Recorded
pub mod Fresh
mod Examples
use go_mini_gateway.Common.{
  ℕ, ℤ, pos, Text, Time, Bool, true, false, Option, none, some, List, [], ◌∷◌, ◌++◌, ◌⊎◌, inl, inr,
  text_eq, codes, ◌==◌, if◌then◌else◌, ◌≡◌,
}
use go_mini_gateway.Http.{Response, Reply, reply, panicked}
use go_mini_gateway.Concurrency.Limiter
use go_mini_gateway.Concurrency.Limiter.{Limiter}
use go_mini_gateway.Concurrency.Middleware as ConcurrencyMiddleware
use go_mini_gateway.RateLimit.TokenBucket
use go_mini_gateway.RateLimit.TokenBucket.{TokenBucket}
use go_mini_gateway.RateLimit.Middleware as RateLimitMiddleware
use go_mini_gateway.Metrics.Registry.{Registry, record_request}
use go_mini_gateway.Proxy.Upstream
use go_mini_gateway.Proxy.Upstream.{select_upstream}
use go_mini_gateway.Proxy.Handler
use go_mini_gateway.Proxy.Handler.{Request, Answer, no_upstream, finish}
use go_mini_gateway.Server.Recorder.{
  StatusRecorder, header, data_, Op, op_write_header, op_write, op_unwrap, new_status_recorder,
  write_header, perform_all, status_code, set_route_id,
}
use go_mini_gateway.Server.AccessLog.{logged_route_id}
use go_mini_gateway.Server.System.{handle_ping, handle_health, handle_version}
use go_mini_gateway.Server.Routes.{Handler, Mux, RouteRuntime}
use go_mini_gateway.Server.Runtime.{MainHandler, RuntimeBundle}

-- The objects that the closures share; none is a nil pointer.
pub record Store : Type 0 where
  pub limiters : Text → Option Limiter
  pub buckets : Text → Option TokenBucket
  pub proxies : Text → Option Upstream.Handler
  pub registry : Option Registry

-- What runs behind the inner handler: `defer limiter.Release()`, and the second half of the access log.
pub data Frame : Type 0 where
  release_place : Text → Frame
  record_access : Frame

-- In front of a handler; at the upstream with this index; on the way back with an answer or a panic.
pub data Position : Type 0 where
  at_main : MainHandler → Position
  at_route : Handler → Position
  at_upstream : Text → ℕ → Position
  back : Reply → Position

pub record InFlight : Type 0 where
  pub request : Request
  pub recorder : StatusRecorder
  pub position : Position
  pub frames : List Frame

-- What a step is given from outside: the clock, the informational statuses that the upstream sends in front of
-- its answer, the answer, its time, whether the body of the answer breaks off, in which case the reverse proxy
-- panics, the bytes that the client's writer takes, and the cost that the access log measures.
pub record Outside : Type 0 where
  pub clock : ℕ → Time
  pub early : List ℕ
  pub answer : Answer
  pub now : Time
  pub aborts : Bool
  pub taken : ℕ
  pub cost : ℤ

abbrev pub update : {A : Type 0} → (Text → A) → Text → A → Text → A
update f name a n = if text_eq n name then a else f n

-- ratelimit.Middleware in front of `next`.
unfoldable pub take_token : Store → InFlight → Text → Position → Store × InFlight
unfolding TokenBucket.allow text_eq
take_token s q name next = elim (s.buckets name) [
  | none ↦ (s, record q { position = next })
  | some b ↦
      let (b', allowed) = TokenBucket.allow (some b) in
      (
        record s { buckets = update s.buckets name b' },
        record q { position = if allowed then next else back RateLimitMiddleware.limit_exceeded },
      )
]

-- concurrency.Middleware in front of `next`.
unfoldable pub take_place : Store → InFlight → Text → Position → Store × InFlight
unfolding Limiter.try_acquire text_eq
take_place s q name next = elim (s.limiters name) [
  | none ↦ (s, record q { position = next })
  | some l ↦
      let (l', acquired) = Limiter.try_acquire (some l) in
      let s' = record s { limiters = update s.limiters name l' } in
      if acquired
      then (s', record q { position = next; frames = release_place name ∷ q.frames })
      else (s', record q { position = back ConcurrencyMiddleware.limit_exceeded })
]

-- The proxy of a route selects an upstream.
unfoldable pub select_at :
    Store → InFlight → Text → Upstream.Handler → (ℕ → Time) → Store × InFlight
unfolding select_upstream no_upstream text_eq
select_at s q id h clock =
    let (h', selected) = select_upstream h clock in
    (
      record s { proxies = update s.proxies id (some h') },
      record q {
        position = elim selected [ none ↦ back (no_upstream h') | some j ↦ at_upstream id j ];
      },
    )

-- httputil.ReverseProxy writes each informational status of the upstream as a header.
unfoldable pub forward : StatusRecorder → List ℕ → StatusRecorder
unfolding write_header
forward r [] = r
forward r (status ∷ statuses) = forward (write_header r status).0 statuses

-- The answer of the upstream is recorded; the body may still break off.
unfoldable pub finish_at :
    Store → InFlight → Text → ℕ → Upstream.Handler → Outside → Store × InFlight
unfolding finish forward text_eq
finish_at s q id j h o =
    let (h', sent) = finish h j o.answer o.now in
    (
      record s { proxies = update s.proxies id (some h') },
      record q {
        recorder = forward q.recorder o.early;
        position = back (elim sent [ none ↦ panicked | some r ↦ if o.aborts then panicked else r ]);
      },
    )

-- How an answer is written. The reverse proxy sends the answer 101 of an upgrade on the connection itself, which
-- it takes over from the writer that Unwrap gives; the one of an upgrade that fails is left out.
unfoldable pub answer_ops : Response → ℕ → List Op
answer_ops r taken =
    if r.status == 101
    then op_unwrap (header 101 ∷ data_ r.body taken ∷ []) ∷ []
    else op_write_header r.status ∷ op_write r.body taken ∷ []

-- The second half of accessLogMiddleware. The request that it reads the route from is the outer one, whose
-- context has no route. A panic passes it.
unfoldable pub record_reply : Store → InFlight → Reply → Outside → Store
unfolding perform_all status_code record_request logged_route_id answer_ops
record_reply s q panicked o = s
record_reply s q (reply r) o =
    let recorder = (perform_all q.recorder (answer_ops r o.taken)).0 in
    record s {
      registry = record_request s.registry (record {
        route_id = logged_route_id recorder none q.request.path;
        status_code = pos (status_code recorder);
        byte_written = recorder.bytes_written;
        latency = o.cost;
      });
    }

unfoldable pub go_back : Store → InFlight → Reply → List Frame → Outside → Store × InFlight
unfolding Limiter.release text_eq record_reply
go_back s q r [] o = (s, q)
go_back s q r (release_place name ∷ frames) o = (
  record s { limiters = update s.limiters name (Limiter.release (s.limiters name)) },
  record q { frames = frames },
)
go_back s q r (record_access ∷ frames) o = (record_reply s q r o, record q { frames = frames })

-- The first half of accessLogMiddleware.
abbrev pub enter_access_log : InFlight → MainHandler → InFlight
enter_access_log q next = record q {
  recorder = new_status_recorder;
  position = at_main next;
  frames = record_access ∷ q.frames;
}

-- timeoutMiddleware. The deadline that it sets shows in what the upstream answers.
abbrev pub enter_timeout : InFlight → MainHandler → InFlight
enter_timeout q next = record q { position = at_main next }

-- withRouteID: the writer that it finds is the recorder of the access log, so that its loop ends at once. The
-- context of the inner request, which holds the id too, has no reader.
abbrev pub enter_route_id : InFlight → Text → Handler → InFlight
enter_route_id q id next = record q {
  recorder = set_route_id q.recorder id;
  position = at_route next;
}

module _ (dispatch : Mux → Request → Reply ⊎ Handler) where
  unfoldable pub advance_main : Store → InFlight → MainHandler → Store × InFlight
  unfolding take_token take_place
  advance_main s q (MainHandler.access_log next) = (s, enter_access_log q next)
  advance_main s q (MainHandler.limit_rate name _ next) = take_token s q name (at_main next)
  advance_main s q (MainHandler.limit_concurrency name _ next) = take_place s q name (at_main next)
  advance_main s q (MainHandler.with_timeout _ next) = (s, enter_timeout q next)
  advance_main s q (MainHandler.serve_mux mux) = (
    s,
    record q { position = elim (dispatch mux q.request) [ inl r ↦ back r | inr h ↦ at_route h ] },
  )

  unfoldable pub advance_route : Store → InFlight → Handler → Outside → Store × InFlight
  unfolding take_token take_place handle_ping handle_health handle_version select_at
  advance_route s q Handler.ping o =
      (s, record q { position = back (handle_ping q.request.method) })
  advance_route s q Handler.health o =
      (s, record q { position = back (handle_health q.request.method) })
  advance_route s q Handler.version o =
      (s, record q { position = back (handle_version q.request.method) })
  advance_route s q (Handler.with_route_id id next) o = (s, enter_route_id q id next)
  advance_route s q (Handler.limit_rate name _ next) o = take_token s q name (at_route next)
  advance_route s q (Handler.limit_concurrency name _ next) o = take_place s q name (at_route next)
  advance_route s q (Handler.proxy h) o = elim (s.proxies h.route_id) [
    | none ↦ (s, record q { position = back panicked })
    | some now ↦ select_at s q h.route_id now o.clock
  ]

  -- The next step of a request.
  unfoldable pub advance : Store → InFlight → Outside → Store × InFlight
  unfolding advance_main advance_route finish_at go_back
  advance s q o = elim q.position [
    | at_main h ↦ advance_main s q h
    | at_route h ↦ advance_route s q h o
    | at_upstream id j ↦ elim (s.proxies id) [
      | none ↦ (s, record q { position = back panicked })
      | some h ↦ finish_at s q id j h o
    ]
    | back r ↦ go_back s q r q.frames o
  ]
