-- ===== src/Server/Recorder.antt =====
-- `statusRecorder` of internal/server/middleware.go. A method gives the recorder behind it and the calls that
-- it makes of the writer that it wraps; how many bytes that writer takes is an argument of `write`. The
-- number of bytes is an int64, by its bit pattern. A handler can also get the wrapped writer itself by
-- `Unwrap`, as http.ResponseController does for the handler of an upgrade, which takes the connection over:
-- what it sends in that way is a list of calls that the recorder does not see.
pub mod Laws
pub mod Client
mod Examples
use go_mini_gateway.Common.{
  ℕ, ◌+◌, ◌%◌, ◌==◌, Text, Bool, true, false, not, Option, none, some, List, [], ◌∷◌, ◌++◌,
  is_empty, if◌then◌else◌,
}
use go_mini_gateway.Metrics.Registry.{i64}

pub record StatusRecorder : Type 0 where
  pub status_code : ℕ
  pub bytes_written : ℕ
  pub wrote_header : Bool
  pub route_id : Text

-- A call of the wrapped writer.
pub data Call : Type 0 where
  header : ℕ → Call
  data_ : Text → ℕ → Call
  flushed : Call

unfoldable pub new_status_recorder : StatusRecorder
new_status_recorder = record {
  status_code = 0;
  bytes_written = 0;
  wrote_header = false;
  route_id = [];
}

unfoldable pub write_header : StatusRecorder → ℕ → StatusRecorder × List Call
write_header r status_code =
    if r.wrote_header
    then (r, [])
    else (record r { status_code = status_code; wrote_header = true }, header status_code ∷ [])

-- `if !r.wroteHeader { r.WriteHeader(http.StatusOK) }`
unfoldable pub ensure_header : StatusRecorder → StatusRecorder × List Call
unfolding write_header
ensure_header r = if not r.wrote_header then write_header r 200 else (r, [])

-- `n` is what the wrapped writer returns.
unfoldable pub write : StatusRecorder → Text → ℕ → StatusRecorder × List Call
unfolding ensure_header
write r bytes n =
    let (r', calls) = ensure_header r in
    (record r' { bytes_written = (r'.bytes_written + n) % i64 }, calls ++ data_ bytes n ∷ [])

-- The wrapped writer is a `http.Flusher`, as that of net/http is.
unfoldable pub flush : StatusRecorder → StatusRecorder × List Call
unfolding ensure_header
flush r = let (r', calls) = ensure_header r in (r', calls ++ flushed ∷ [])

unfoldable pub status_code : StatusRecorder → ℕ
status_code r = if r.status_code == 0 then 200 else r.status_code

unfoldable pub set_route_id : StatusRecorder → Text → StatusRecorder
set_route_id r route_id = if is_empty route_id then r else record r { route_id = route_id }

-- `Unwrap` gives the wrapped writer, and the handler makes these calls of it; for a connection that it took
-- over, a call is what it sends there.
unfoldable pub unwrap : StatusRecorder → List Call → StatusRecorder × List Call
unwrap r calls = (r, calls)

-- What a handler does with its writer.
pub data Op : Type 0 where
  op_write_header : ℕ → Op
  op_write : Text → ℕ → Op
  op_flush : Op
  op_set_route_id : Text → Op
  op_unwrap : List Call → Op

unfoldable pub perform : StatusRecorder → Op → StatusRecorder × List Call
unfolding write_header write flush set_route_id unwrap
perform r (op_write_header status) = write_header r status
perform r (op_write bytes n) = write r bytes n
perform r op_flush = flush r
perform r (op_set_route_id id) = (set_route_id r id, [])
perform r (op_unwrap calls) = unwrap r calls

unfoldable pub perform_all : StatusRecorder → List Op → StatusRecorder × List Call
unfolding perform
perform_all r [] = (r, [])
perform_all r (o ∷ os) =
    let (r', calls) = perform r o in let (r'', more) = perform_all r' os in (r'', calls ++ more)
