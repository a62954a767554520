-- ===== src/Server/Examples.antt =====
-- The theorems on the runtime and on the reload at the configuration with one route.
use mathlib.Core.Path.{subst}
use go_mini_gateway.Common.{
  ◌∷◌, List, ◌≡◌, ◌⊎◌, refl, Text, Option, none, some, [], ◌++◌, All, codes, ok, err, text_eq, ℤ,
  Bool,
}
use go_mini_gateway.Config.Types.{Config}
use go_mini_gateway.Config.Env.{expand_env_string}
use go_mini_gateway.Config.Expand.{expand_config_env}
use go_mini_gateway.Config.Normalize.{normalize}
use go_mini_gateway.Config.Normalize.Routes.{IsNormal}
use go_mini_gateway.Config.Durations
use go_mini_gateway.Config.Load.{LoadError, load, load-IsConfig}
use go_mini_gateway.Config.Validate.{validate, contains}
use go_mini_gateway.Config.Validate.Spec.{AllDistinct, IsConfig}
use go_mini_gateway.Config.Validate.Whole.{validate_iff}
use go_mini_gateway.Proxy.Snapshots.{Formats}
use go_mini_gateway.Server.Outcome.{failed, panicked, done}
use go_mini_gateway.Server.Routes.{route_patterns}
use go_mini_gateway.Server.Routes.Patterns.{
  IsLiteral, AllDistinct-iff, system_patterns, all_route_patterns,
}
use go_mini_gateway.Server.Runtime.{RuntimeBundle, build_runtime}
use go_mini_gateway.Server.Runtime.Total.{build_runtime_lem}
use go_mini_gateway.Server.Reload.{Server, ReloadError, new_with_config_path, reload, no_resources}
use go_mini_gateway.Server.Process.{BootError, launch, boot}
use go_mini_gateway.Server.Process.Boot.{boot_lem}
use go_mini_gateway.Server.Reload.Laws.{KeepsFixed}
use go_mini_gateway.Server.Reload.Exchange.{reload_lem}
use go_mini_gateway.Server.Reload.Installed.{Installs, Answers}
use go_mini_gateway.Server.Reload.Closing.{Stops}
use go_mini_gateway.Server.Reload.Consistent.{
  IsConsistent, new-IsConsistent, Attempt, reload_all, started-IsConsistent, reload_succeeds,
}
use go_mini_gateway.Server.Sample.{
  parse_url, parse_duration, accepts, mux, config_with, config, config_valid, a_literal, built,
  path, server,
}

build_runtime_lem_example :
    (AllDistinct (system_patterns ++ all_route_patterns config.routes)
      × ((b : RuntimeBundle) × (build_runtime accepts parse_url parse_duration config ≡ done b)))
    ⊎ ((¬ AllDistinct (system_patterns ++ all_route_patterns config.routes))
        × (build_runtime accepts parse_url parse_duration config ≡ panicked))
build_runtime_lem_example =
    build_runtime_lem accepts mux parse_url parse_duration config config_valid (a_literal, tt)

-- A prefix that is a path of the system with a slash behind it makes the mux panic.
ping_test : build_runtime accepts parse_url parse_duration (config_with (codes "/ping/")) ≡ panicked
unfolding build_runtime contains text_eq
ping_test = refl

ping_valid : IsConfig parse_url parse_duration (config_with (codes "/ping/"))
unfolding validate
ping_valid = (validate_iff parse_url parse_duration (config_with (codes "/ping/"))).0 refl

abbrev read_file : Text → Option Text
read_file _ = some []

abbrev unmarshal : Text → Option Config
unmarshal _ = some config

abbrev lookup_env : Text → Option Text
lookup_env _ = none

abbrev formats : Formats
formats = record { url_string = λ _. []; time_string = λ _. []; duration_string = λ _. [] }

loaded : load read_file unmarshal lookup_env parse_url parse_duration path ≡ ok config
unfolding load expand_config_env expand_env_string normalize validate
loaded = refl

load-IsConfig_example : IsConfig parse_url parse_duration config × All IsNormal config.routes
load-IsConfig_example =
    load-IsConfig read_file unmarshal lookup_env parse_url parse_duration path config loaded

started : new_with_config_path accepts parse_url parse_duration config path ≡ done server
unfolding new_with_config_path
started = rw built refl

consistent : IsConsistent accepts parse_url parse_duration server
consistent =
    new-IsConsistent accepts parse_url parse_duration config path server config_valid started

-- A file that cannot be read, and then one that can.
abbrev attempts : List (Attempt accepts parse_url parse_duration)
attempts =
    record { read_file = λ _. none; lookup_env = lookup_env; now = 0 }
    ∷ record { read_file = read_file; lookup_env = lookup_env; now = 1 }
    ∷ []

started-IsConsistent_example :
    IsConsistent accepts parse_url parse_duration
      (reload_all accepts parse_url parse_duration unmarshal formats server attempts)
started-IsConsistent_example =
    started-IsConsistent accepts parse_url parse_duration unmarshal formats config path server
      attempts config_valid started

distinct : AllDistinct (system_patterns ++ all_route_patterns config.routes)
unfolding contains text_eq route_patterns
distinct = (AllDistinct-iff (system_patterns ++ all_route_patterns config.routes)).0 refl

reload_succeeds_example :
    let (s', released, answer) =
      reload accepts parse_url parse_duration read_file unmarshal lookup_env formats 0 server in
    (b : RuntimeBundle) × (build_runtime accepts parse_url parse_duration config ≡ done b)
    × Installs server config b s'
    × Stops server released
    × Answers b.routes answer
reload_succeeds_example =
    reload_succeeds accepts parse_url parse_duration read_file unmarshal lookup_env mux formats 0
      server config (λ e. cc) loaded consistent.fixed (a_literal, tt) distinct

reload_lem_example :
    let (s', released, answer) =
      reload accepts parse_url parse_duration read_file unmarshal lookup_env formats 0 server in
    ((s' ≡ server)
      × (released ≡ no_resources)
      × (((e : ReloadError) × (answer ≡ failed e)) ⊎ (answer ≡ panicked)))
    ⊎ ((c : Config) × (b : RuntimeBundle) × (load read_file unmarshal lookup_env parse_url
            parse_duration server.config_path
          ≡ ok c)
        × KeepsFixed server c
        × (build_runtime accepts parse_url parse_duration c ≡ done b)
        × Installs server c b s'
        × Stops server released
        × Answers b.routes answer)
reload_lem_example =
    reload_lem accepts parse_url parse_duration read_file unmarshal lookup_env formats 0 server

boot_lem_example :
    ((e : LoadError) × (load read_file unmarshal lookup_env parse_url parse_duration path ≡ err e)
      × (boot accepts parse_url parse_duration read_file unmarshal lookup_env {E = Bool} path
          ≡ failed (BootError.load_failed e)))
    ⊎ ((c : Config) × (load read_file unmarshal lookup_env parse_url parse_duration path ≡ ok c)
        × ((AllDistinct (system_patterns ++ all_route_patterns c.routes)
              × ((s : Server) × (timeout : ℤ) × (Durations.shutdown_timeout_duration parse_duration
                      c
                    ≡ some timeout)
                  × (new_with_config_path accepts parse_url parse_duration c path ≡ done s)
                  × (boot accepts parse_url parse_duration read_file unmarshal lookup_env {E = Bool}
                        path
                      ≡ done (launch s timeout))))
            ⊎ ((¬ AllDistinct (system_patterns ++ all_route_patterns c.routes))
                × (boot accepts parse_url parse_duration read_file unmarshal lookup_env {E = Bool}
                      path
                    ≡ panicked))))
boot_lem_example =
    boot_lem accepts mux parse_url parse_duration read_file unmarshal lookup_env {E = Bool} path
      (λ c l.
        let same : config ≡ c = cc (loaded, l) in
        subst (λ (d : Config). All (λ r. IsLiteral r.prefix) d.routes) same (a_literal, tt))
