-- ===== src/Server/Process/Examples.antt =====
-- The theorems on the process at the server of one route: the signal comes, its Shutdown succeeds, its
-- ListenAndServe returns ErrServerClosed, and main returns.
use mathlib.Core.List.{Memᴰ}
use go_mini_gateway.Common.{
  ◌≡◌, ◌⊎◌, ◌<◌, refl, pos, second, Text, Bool, true, Option, none, some, [], ◌∷◌, codes,
}
use go_mini_gateway.Config.Types.{Config}
use go_mini_gateway.Proxy.Snapshots.{Formats}
use go_mini_gateway.Server.Reload.{Released, close_resource}
use go_mini_gateway.Server.Reload.Closing.{Stops}
use go_mini_gateway.Server.Lifecycle.{
  active_http_servers, receive, start_error, start, shutdown_error, receive_all, shutdown,
}
use go_mini_gateway.Server.Process.{
  Exit, Phase, Process, launch, exit_at_end, after_shutdown, Work, stops, signalled, shuts_down,
  is_shut_down, ends, Reach, here, next, works,
}
use go_mini_gateway.Server.Process.Ends.{remaining, main_ends}
use go_mini_gateway.Server.Process.Releases.{all_released}
use go_mini_gateway.Server.Sample.{parse_url, parse_duration, accepts, config, server}

abbrev unmarshal : Text → Option Config
unmarshal _ = some config

abbrev formats : Formats
formats = record { url_string = λ _. []; time_string = λ _. []; duration_string = λ _. [] }

-- true is ErrServerClosed
abbrev is_server_closed : Bool → Bool
is_server_closed b = b

abbrev main_name : Text
main_name = codes "main"

abbrev launched : Process Bool
launched = record {
  server = server;
  shutdown_timeout = pos second;
  listening = main_name ∷ [];
  stopped = [];
  pending = [];
  reports = [];
  released = [];
  phase = Phase.selecting;
}

abbrev in_shutdown : Process Bool
in_shutdown = record launched {
  listening = [];
  stopped = (main_name, some true) ∷ [];
  pending = [];
  reports = (main_name, none) ∷ [];
  phase = Phase.shutting_down;
}

abbrev at_end : Process Bool
at_end = record in_shutdown {
  released = close_resource server ∷ [];
  phase = Phase.exited Exit.stopped;
}

launched_test : launch server (pos second) ≡ launched
unfolding launch active_http_servers
launched_test = refl

until_shutdown :
    Reach accepts parse_url parse_duration unmarshal formats is_server_closed
      (launch server (pos second))
      in_shutdown
unfolding launch active_http_servers
until_shutdown =
    next
      (next (next here (works (signalled refl)))
        (works (shuts_down [] [] main_name none refl refl)))
      (works (stops [] [] main_name (some true) tt refl))

until_end :
    Reach accepts parse_url parse_duration unmarshal formats is_server_closed
      (launch server (pos second))
      at_end
unfolding launch active_http_servers start start_error receive shutdown shutdown_error receive_all
    after_shutdown exit_at_end
until_end =
    next (next until_shutdown (works (is_shut_down [] refl refl))) (works (ends none refl refl))

main_ends_example :
    (((x : Exit Bool) × (in_shutdown.phase ≡ Phase.exited x))
      ⊎ ((q : Process Bool) × Work accepts parse_url parse_duration unmarshal formats
            is_server_closed in_shutdown q))
    × ((q : Process Bool)
        → Work accepts parse_url parse_duration unmarshal formats is_server_closed in_shutdown q
        → remaining is_server_closed accepts parse_url parse_duration unmarshal formats q
          < remaining is_server_closed accepts parse_url parse_duration unmarshal formats
              in_shutdown)
main_ends_example =
    main_ends is_server_closed accepts parse_url parse_duration unmarshal formats server
      (pos second) in_shutdown until_shutdown (λ e. cc)

all_released_example : (r : Released) × Memᴰ r at_end.released × Stops server r
unfolding launch
all_released_example =
    all_released is_server_closed accepts parse_url parse_duration unmarshal formats
      (launch server (pos second)) at_end refl until_end (λ b. b)
