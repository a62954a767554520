-- ===== src/Server/Process.antt =====
-- The process: `main` of cmd/gateway/main.go, with Start, Shutdown and Close of internal/server/lifecycle.go
-- running beside it. `boot` is main up to the goroutine that calls Start; from there on the process moves by
-- steps, in any order that the servers, the signal and the reloads allow. The channels of Start and Shutdown
-- hold what was sent in its order, and their loops read them from the front.
pub mod Invariant
pub mod Ends
pub mod Releases
pub mod Boot
mod Examples
use go_mini_gateway.Common.{ℤ, ◌≡◌, Text, Bool, Option, none, some, List, [], ◌∷◌, ◌++◌}
use go_mini_gateway.Url.{Url}
use go_mini_gateway.Config.Types.{Config}
use go_mini_gateway.Config.Durations
use go_mini_gateway.Config.Load.{LoadError, load}
use go_mini_gateway.Proxy.Snapshots.{Formats}
use go_mini_gateway.Server.Outcome.{Outcome, failed, panicked, done, ◌>>=◌, lift, given}
use go_mini_gateway.Server.Routes.{RuntimeError}
use go_mini_gateway.Server.Reload.{Server, Released, close_resource, new_with_config_path, reload}
use go_mini_gateway.Server.Reload.Consistent.{Attempt}
use go_mini_gateway.Server.Lifecycle.{ServerError, active_http_servers, start, shutdown, close}

-- How main ends: it returns, or log.Fatalf ends the process.
pub data Exit (E : Type 0) : Type 0 where
  returned stopped : Exit E
  failed_to_start stopped_with : ServerError E → Exit E

abbrev pub exit_error : {E : Type 0} → Exit E → Option (ServerError E)
exit_error Exit.returned = none
exit_error Exit.stopped = none
exit_error (Exit.failed_to_start e) = some e
exit_error (Exit.stopped_with e) = some e

-- main waits in its select; in Shutdown; is about to call Close; waits for Start; has ended.
pub data Phase (E : Type 0) : Type 0 where
  selecting shutting_down closing draining : Phase E
  exited : Exit E → Phase E

pub record Process (E : Type 0) : Type 0 where
  pub server : Server
  pub shutdown_timeout : ℤ
  -- the servers in ListenAndServe, and what it returned for the others
  pub listening : List Text
  pub stopped : List (Text × Option E)
  -- the servers whose Shutdown is running, and what it returned for the others
  pub pending : List Text
  pub reports : List (Text × Option E)
  -- what was closed, by each reload and each CloseResource
  pub released : List Released
  pub phase : Phase E

pub data BootError : Type 0 where
  load_failed : LoadError → BootError
  invalid_shutdown_timeout : BootError
  create_failed : RuntimeError → BootError

-- The error of NewWithConfigPath under its message.
unfoldable pub created : {A : Type 0} → Outcome RuntimeError A → Outcome BootError A
created (failed e) = failed (create_failed e)
created panicked = panicked
created (done a) = done a

module _ {E : Type 0} where
  abbrev pub servers : Process E → List Text
  servers p = active_http_servers p.server.admin_http_addr

  -- `go func() { errCh <- s.Start() }()`: every server is in ListenAndServe.
  unfoldable pub launch : Server → ℤ → Process E
  unfolding active_http_servers
  launch s timeout = record {
    server = s;
    shutdown_timeout = timeout;
    listening = active_http_servers s.admin_http_addr;
    stopped = [];
    pending = [];
    reports = [];
    released = [];
    phase = Phase.selecting;
  }

  -- What main does with what Start returned, in the select and at its end.
  unfoldable pub exit_at_select : Option (ServerError E) → Exit E
  exit_at_select none = Exit.returned
  exit_at_select (some e) = Exit.failed_to_start e

  unfoldable pub exit_at_end : Option (ServerError E) → Exit E
  exit_at_end none = Exit.stopped
  exit_at_end (some e) = Exit.stopped_with e

  -- `if err := s.Shutdown(shutdownCtx); err != nil { ... s.Close() ... }`
  unfoldable pub after_shutdown : List (ServerError E) → Phase E
  after_shutdown [] = Phase.draining
  after_shutdown (e ∷ errors) = Phase.closing

  abbrev pub IsRunning : Phase E → Type 0
  IsRunning Phase.selecting = Unit
  IsRunning Phase.shutting_down = Unit
  IsRunning Phase.closing = Unit
  IsRunning Phase.draining = Unit
  IsRunning (Phase.exited x) = ⊥

module _ (accepts : List Text → Text → Bool) (parse_url : Text → Option Url)
    (parse_duration : Text → Option ℤ) where
  module _ (read_file : Text → Option Text) (unmarshal : Text → Option Config)
      (lookup_env : Text → Option Text) {E : Type 0} where
    unfoldable pub boot : Text → Outcome BootError (Process E)
    unfolding load Durations.shutdown_timeout_duration new_with_config_path created launch
    boot path = do
      c ← lift load_failed (load read_file unmarshal lookup_env parse_url parse_duration path)
      timeout ←
          given invalid_shutdown_timeout (Durations.shutdown_timeout_duration parse_duration c)
      s ← created (new_with_config_path accepts parse_url parse_duration c path)
      done (launch s timeout)

  module _ (unmarshal : Text → Option Config) (f : Formats) {E : Type 0}
      (is_server_closed : E → Bool) where
    -- A step of main or of a goroutine of Start or Shutdown.
    pub data Work (p : Process E) : Process E → Type 0 where
      -- ListenAndServe of a server returns, and its goroutine sends
      stops :
          (before after : List Text) (name : Text) (result : Option E)
          → IsRunning p.phase
          → p.listening ≡ (before ++ name ∷ after)
          → Work p
              (record p { listening = before ++ after; stopped = p.stopped ++ (name, result) ∷ [] })
      -- main receives from errCh in its select
      returns :
          (result : Option (ServerError E))
          → p.phase ≡ Phase.selecting
          → start is_server_closed (servers p) p.stopped ≡ some result
          → Work p (record p { phase = Phase.exited (exit_at_select result) })
      -- the signal comes, and main calls Shutdown
      signalled :
          p.phase ≡ Phase.selecting
          → Work p (record p { phase = Phase.shutting_down; pending = servers p })
      -- Shutdown of a server returns, and its goroutine sends
      shuts_down :
          (before after : List Text) (name : Text) (result : Option E)
          → p.phase ≡ Phase.shutting_down
          → p.pending ≡ (before ++ name ∷ after)
          → Work p
              (record p { pending = before ++ after; reports = p.reports ++ (name, result) ∷ [] })
      -- Shutdown has received from all servers, closes the resources and returns
      is_shut_down :
          (errors : List (ServerError E))
          → p.phase ≡ Phase.shutting_down
          → shutdown (servers p) p.reports ≡ some errors
          → Work p (record p {
            released = p.released ++ close_resource p.server ∷ [];
            phase = after_shutdown errors;
          })
      -- main calls Close
      closes :
          (close_server : Text → Option E)
          → p.phase ≡ Phase.closing
          → Work p (record p {
            released = p.released ++ (close close_server (servers p) p.server).1 ∷ [];
            phase = Phase.draining;
          })
      -- main receives from errCh at its end
      ends :
          (result : Option (ServerError E))
          → p.phase ≡ Phase.draining
          → start is_server_closed (servers p) p.stopped ≡ some result
          → Work p (record p { phase = Phase.exited (exit_at_end result) })

    -- The process behind a reload, which a handler of the administration calls.
    abbrev pub reloaded : Process E → Attempt accepts parse_url parse_duration → Process E
    reloaded p a =
        let (s, closed, _) =
          reload accepts parse_url parse_duration a.read_file unmarshal a.lookup_env f a.now
            p.server in
        record p { server = s; released = p.released ++ closed ∷ [] }

    pub data Step (p : Process E) : Process E → Type 0 where
      works : {q : Process E} → Work p q → Step p q
      reloads :
          (a : Attempt accepts parse_url parse_duration) → IsRunning p.phase → Step p (reloaded p a)

    pub data Reach (p : Process E) : Process E → Type 0 where
      here : Reach p p
      next : {q r : Process E} → Reach p q → Step q r → Reach p r
