-- ===== src/Proxy/Handler.antt =====
-- internal/proxy/handler.go and proxy_error.go: a request through the handler of a route. Choosing the
-- upstream and recording the outcome are two steps, `begin` and `finish`, between which other requests
-- may run; the reverse proxy of net/http/httputil stands between them, with its answer as a parameter.
pub mod RewritePath
pub mod Serve
pub mod Kept
mod Examples
use go_mini_gateway.Common.{
  ℕ, ◌+◌, Text, Time, Bool, true, false, not, ◌&&◌, ◌||◌, Option, none, some, List, [], ◌∷◌, ◌++◌,
  ltb, leb, get_elem?, set, codes, is_empty, has_prefix, trim_prefix, text_eq, itoa, if◌then◌else◌,
}
use go_mini_gateway.Url.{Url}
use go_mini_gateway.Http.{Response, Reply, reply, http_error, set_header}
use go_mini_gateway.Proxy.Upstream.{
  Upstream, Handler, select_upstream, record_success, record_failure,
}

abbrev pub gateway_name : Text
gateway_name = codes "go-mini-gateway"

unfoldable pub rewrite_path : Text → Text → Text
unfolding trim_prefix has_prefix
rewrite_path path strip_prefix =
    let p = if not (is_empty strip_prefix) then trim_prefix path strip_prefix else path in
    if is_empty p then codes "/" else if not (has_prefix p (codes "/")) then codes "/" ++ p else p

-- Of an error of the transport: `errors.Is(err, context.DeadlineExceeded)`, the answer of `Timeout` if it
-- is a `net.Error`, and its text.
pub record ProxyError : Type 0 where
  pub deadline_exceeded : Bool
  pub net_timeout : Option Bool
  pub message : Text

abbrev pub timed_out : Option Bool → Bool
timed_out none = false
timed_out (some t) = t

unfoldable pub is_timeout_error : ProxyError → Bool
is_timeout_error e = if e.deadline_exceeded then true else timed_out e.net_timeout

unfoldable pub status_code_from_proxy_error : ProxyError → ℕ
unfolding is_timeout_error
status_code_from_proxy_error e = if is_timeout_error e then 504 else 502

-- `http.StatusText`, at the two codes that are used.
abbrev status_text : ℕ → Text
status_text code = if leb code 502 then codes "Bad Gateway" else codes "Gateway Timeout"

pub record Request : Type 0 where
  pub method : Text
  pub path : Text
  pub trace_id : Text

-- What is sent to the upstream: its address, the rewritten path, and the headers that the gateway sets.
pub record Outgoing : Type 0 where
  pub url : Url
  pub path : Text
  pub headers : List (Text × Text)

-- The client's header, or one made of the time.
unfoldable pub trace_id_from_request : Request → Time → Text
unfolding itoa
trace_id_from_request r now = if is_empty r.trace_id then codes "trace-" ++ itoa now else r.trace_id

unfoldable pub rewrite_request : Handler → Upstream → Request → Time → Outgoing
unfolding rewrite_path trace_id_from_request
rewrite_request h selected r now = record {
  url = selected.url;
  path = rewrite_path r.path h.strip_prefix;
  headers =
      (codes "X-Gateway", gateway_name)
      ∷ (codes "X-Gateway-Route", h.route_id)
      ∷ (codes "X-Gateway-Upstream", selected.id)
      ∷ (codes "X-Trace-ID", trace_id_from_request r now)
      ∷ [];
}

-- What the reverse proxy makes of the outgoing request.
pub data Answer : Type 0 where
  responded : Response → Answer
  failed : ProxyError → Answer

-- The selected upstream is recorded in the list, at its index.
abbrev pub update_upstream : Handler → ℕ → Upstream → Handler
update_upstream h j u = record h { upstreams = set h.upstreams j u }

unfoldable pub modify_response : Handler → Upstream → Response → Time → Upstream × Reply
unfolding set_header itoa
modify_response h selected resp now = (
  (if leb 500 resp.status
      then record_failure selected now (codes "backend status=" ++ itoa resp.status)
      else record_success selected now),
  reply (record resp {
    headers = set_header (codes "X-Gateway-Upstream") selected.id (
        set_header (codes "X-Gateway-Route") h.route_id
          (set_header (codes "X-Gateway") gateway_name resp.headers));
  }),
)

unfoldable pub handle_proxy_error : Upstream → ProxyError → Time → Upstream × Reply
unfolding status_code_from_proxy_error http_error
handle_proxy_error selected e now =
    let status = status_code_from_proxy_error e in
    (record_failure selected now e.message, http_error [] (status_text status) status)

settle : Handler → Upstream → Answer → Time → Upstream × Reply
unfolding modify_response handle_proxy_error
settle h u (responded resp) now = modify_response h u resp now
settle h u (failed e) now = handle_proxy_error u e now

-- The request's pointer is to the upstream as it is when the answer comes. The index is in range.
finish_at : Handler → ℕ → Option Upstream → Answer → Time → Handler × Option Reply
unfolding settle
finish_at h j none answer now = (h, none)
finish_at h j (some u) answer now =
    let (u', sent) = settle h u answer now in (update_upstream h j u', some sent)

unfoldable pub finish : Handler → ℕ → Answer → Time → Handler × Option Reply
unfolding finish_at
finish h j answer now = finish_at h j (get_elem? h.upstreams j) answer now

-- The answer when no upstream accepts.
unfoldable pub no_upstream : Handler → Reply
unfolding http_error set_header
no_upstream h =
    http_error ((codes "X-Gateway", gateway_name) ∷ (codes "X-Gateway-Route", h.route_id) ∷ [])
      (codes "no available upstream") 503

-- A request that is alone in the handler: the time of each round of the selection, of the rewriting and
-- of the answer are given by the clock.
forward :
    (Outgoing → Answer)
    → Request
    → (ℕ → Time)
    → Time
    → Time
    → Handler × Option ℕ
    → Option Upstream
    → Handler × Option Reply
unfolding no_upstream rewrite_request
forward backend r clock sent received (h, none) u = (h, some (no_upstream h))
forward backend r clock sent received (h, some j) none = (h, none)
forward backend r clock sent received (h, some j) (some u) =
    finish h j (backend (rewrite_request h u r sent)) received

abbrev chosen_of : Handler × Option ℕ → Option Upstream
chosen_of (h, none) = none
chosen_of (h, some j) = get_elem? h.upstreams j

unfoldable pub serve_http :
    (Outgoing → Answer) → Handler → Request → (ℕ → Time) → Time → Time → Handler × Option Reply
unfolding forward
serve_http backend h r clock sent received =
    let selected = select_upstream h clock in
    forward backend r clock sent received selected (chosen_of selected)
