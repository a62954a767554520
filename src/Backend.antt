-- ===== src/Backend.antt =====
-- The demonstration backend of cmd/backend/main.go; that of cmd/backend2/main.go is the same program at
-- another address. What the handlers read of a request is a record; `slow` answers behind its delay.
use go_mini_gateway.Common.{
  ℕ, ◌*◌, ◌≤◌, ◌↔◌, Text, Option, none, some, List, [], ◌∷◌, ◌++◌, second, not, is_empty, text_eq,
  codes, arith, if◌then◌else◌,
}
use go_mini_gateway.Http.{Reply, reply, http_error}

pub record Request : Type 0 where
  pub method : Text
  pub path : Text
  pub host : Text
  -- the value of `name` in the query
  pub name : Text
  -- `r.Header.Get`
  pub header : Text → Text
  -- none: reading the body fails
  pub body : Option Text

pub data Endpoint : Type 0 where
  hello hello_v2 echo error slow health : Endpoint

-- `mux.HandleFunc`, in the order of main.
abbrev pub endpoints : List (Text × Endpoint)
endpoints =
    (codes "/hello", Endpoint.hello)
    ∷ (codes "/hello/v2", Endpoint.hello_v2)
    ∷ (codes "/echo", Endpoint.echo)
    ∷ (codes "/error", Endpoint.error)
    ∷ (codes "/slow", Endpoint.slow)
    ∷ (codes "/health", Endpoint.health)
    ∷ []

abbrev content_type : Text × Text
content_type = (codes "Content-Type", codes "text/plain; charset=utf-8")

-- The first write sends the status 200.
abbrev text : List (Text × Text) → Text → Reply
text headers body = reply (record { status = 200; headers = headers; body = body })

abbrev name_or_anonymous : Text → Text
name_or_anonymous name = if is_empty name then codes "anonymous" else name

abbrev backend_headers : List (Text × Text)
backend_headers = content_type ∷ (codes "X-Backend-Server", codes "demo-backend") ∷ []

unfoldable pub handle_hello : Request → Reply
handle_hello r = text backend_headers (
    codes "Hello "
    ++ name_or_anonymous r.name
    ++ codes ". response from backend, traceID:"
    ++ r.header (codes "X-Trace-ID"))

unfoldable pub handle_hello_v2 : Request → Reply
handle_hello_v2 r = text backend_headers (
    codes "hello, "
    ++ name_or_anonymous r.name
    ++ codes ". response from backend\nhost="
    ++ r.host
    ++ codes "\nx-forwarded-for="
    ++ r.header (codes "X-Forwarded-For")
    ++ codes "\nx-forwarded-host="
    ++ r.header (codes "X-Forwarded-Host")
    ++ codes "\nx-forwarded-proto="
    ++ r.header (codes "X-Forwarded-Proto")
    ++ codes "\nx-gateway="
    ++ r.header (codes "X-Gateway")
    ++ codes "\n")

unfoldable pub handle_echo : Request → Reply
unfolding http_error
handle_echo r = elim r.body [
  | none ↦ http_error [] (codes "read request body failed") 400
  | some body ↦
      text (content_type ∷ [])
        (codes "method=" ++ r.method ++ codes " path=" ++ r.path ++ codes " body=" ++ body)
]

unfoldable pub handle_error : Request → Reply
unfolding http_error
handle_error r = http_error [] (codes "backend busy") 503

-- `time.Sleep(5 * time.Second)` stands in front of the answer.
abbrev pub slow_delay : ℕ
slow_delay = 5 * second

unfoldable pub handle_slow : Request → ℕ × Reply
handle_slow r = (slow_delay, text (content_type ∷ []) (codes "slow response from backend"))

unfoldable pub handle_health : Request → Reply
unfolding http_error text_eq
handle_health r =
    if not (text_eq r.method (codes "GET"))
    then http_error [] (codes "method not allowed") 405
    else text (content_type ∷ []) (codes "ok\n")

-- The delay of an endpoint and its answer.
unfoldable pub serve : Endpoint → Request → ℕ × Reply
unfolding handle_hello handle_hello_v2 handle_echo handle_error handle_slow handle_health
serve Endpoint.hello r = (0, handle_hello r)
serve Endpoint.hello_v2 r = (0, handle_hello_v2 r)
serve Endpoint.echo r = (0, handle_echo r)
serve Endpoint.error r = (0, handle_error r)
serve Endpoint.slow r = handle_slow r
serve Endpoint.health r = (0, handle_health r)

abbrev Fails : Reply → Type 0
Fails (reply r) = 500 ≤ r.status
Fails Reply.panicked = Unit

abbrev IsError : Endpoint → Type 0
IsError Endpoint.hello = ⊥
IsError Endpoint.hello_v2 = ⊥
IsError Endpoint.echo = ⊥
IsError Endpoint.error = Unit
IsError Endpoint.slow = ⊥
IsError Endpoint.health = ⊥

-- The endpoint `error`, and no other one, answers what the gateway counts as a failure of an upstream.
serve-Fails : (e : Endpoint) (r : Request) → Fails (serve e r).1 ↔ IsError e
unfolding serve http_error
serve-Fails Endpoint.hello r = ground arith
serve-Fails Endpoint.hello_v2 r = ground arith
serve-Fails Endpoint.echo r = ground arith
serve-Fails Endpoint.error r = ground arith
serve-Fails Endpoint.slow r = ground arith
serve-Fails Endpoint.health r = ground arith
