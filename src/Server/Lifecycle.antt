-- ===== src/Server/Lifecycle.antt =====
-- internal/server/lifecycle.go: Start, Shutdown and Close. What ListenAndServe, Shutdown and Close of the
-- net/http servers return are arguments, paired with the name of the server, in the order in which the
-- goroutines send; `is_server_closed` is `errors.Is(err, http.ErrServerClosed)`. A nil error is none. An
-- error that errors.Join made is the list of the errors in it, and nil is the empty list.
pub mod Laws
use go_mini_gateway.Common.{
  ℕ, zero, suc, Text, Bool, Option, none, some, List, [], ◌∷◌, ◌++◌, map, codes, length,
  if◌then◌else◌,
}
use go_mini_gateway.Server.Reload.{Server, Released, close_resource}

-- An error of net/http with what is written in front of it.
pub data ServerError (E : Type 0) : Type 0 where
  stopped_with_error shutdown_failed close_failed : Text → E → ServerError E

-- The names of the servers that run.
unfoldable pub active_http_servers : Option Text → List Text
active_http_servers admin_http_addr =
    codes "main" ∷ (elim admin_http_addr [ none ↦ [] | some _ ↦ codes "admin" ∷ [] ])

module _ {E : Type 0} where
  -- The loop of Start over what is in its channel: none while it waits, and then what Start returns.
  unfoldable pub receive : ℕ → List (Option (ServerError E)) → Option (Option (ServerError E))
  receive zero ch = some none
  receive (suc n) [] = none
  receive (suc n) (none ∷ ch) = receive n ch
  receive (suc n) (some e ∷ ch) = some (some e)

  -- `errors.Join(result, err)`.
  unfoldable pub join : List (ServerError E) → Option (ServerError E) → List (ServerError E)
  join result none = result
  join result (some e) = result ++ e ∷ []

  -- The loop of Shutdown over what is in its channel: none while it waits, and then the joined errors.
  unfoldable pub receive_all :
      ℕ → List (ServerError E) → List (Option (ServerError E)) → Option (List (ServerError E))
  unfolding join
  receive_all zero result ch = some result
  receive_all (suc n) result [] = none
  receive_all (suc n) result (e ∷ ch) = receive_all n (join result e) ch

  -- What a goroutine of Shutdown sends.
  unfoldable pub shutdown_error : Text × Option E → Option (ServerError E)
  shutdown_error (name, none) = none
  shutdown_error (name, some e) = some (shutdown_failed name e)

  -- Shutdown up to its CloseResource.
  unfoldable pub shutdown : List Text → List (Text × Option E) → Option (List (ServerError E))
  unfolding shutdown_error receive_all
  shutdown servers reports = receive_all (length servers) [] (map shutdown_error reports)

  unfoldable pub close_error : Text → Option E → Option (ServerError E)
  close_error name none = none
  close_error name (some e) = some (close_failed name e)

  unfoldable pub close_all :
      (Text → Option E) → List (ServerError E) → List Text → List (ServerError E)
  unfolding join close_error
  close_all close_server result [] = result
  close_all close_server result (name ∷ servers) =
      close_all close_server (join result (close_error name (close_server name))) servers

  -- Close: what it returns and what it closed.
  unfoldable pub close : (Text → Option E) → List Text → Server → List (ServerError E) × Released
  unfolding close_all close_resource
  close close_server servers s = (close_all close_server [] servers, close_resource s)

  module _ (is_server_closed : E → Bool) where
    -- What a goroutine of Start sends.
    unfoldable pub start_error : Text × Option E → Option (ServerError E)
    start_error (name, none) = none
    start_error (name, some e) =
        if is_server_closed e then none else some (stopped_with_error name e)

    unfoldable pub start : List Text → List (Text × Option E) → Option (Option (ServerError E))
    unfolding start_error receive
    start servers stopped = receive (length servers) (map start_error stopped)
