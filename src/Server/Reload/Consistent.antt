-- ===== src/Server/Reload/Consistent.antt =====
-- The server stands for its current configuration, behind any reloads.
use mathlib.Core.Path.{subst}
use go_mini_gateway.Common.{
  ◌≡◌, ◌≢◌, inl, inr, refl, sym, ℤ, Text, Time, Bool, false, Option, List, [], ◌∷◌, ◌++◌, All,
  is_empty, ok, arith,
}
use go_mini_gateway.Url.{Url}
use go_mini_gateway.Config.Types.{Config}
use go_mini_gateway.Config.Load.{load, load-IsConfig}
use go_mini_gateway.Config.Validate.Spec.{AllDistinct, IsConfig}
use go_mini_gateway.Proxy.Snapshots.{Formats}
use go_mini_gateway.Server.Outcome.{done, first_done}
use go_mini_gateway.Server.Routes.Patterns.{
  IsLiteral, IsServeMux, system_patterns, all_route_patterns,
}
use go_mini_gateway.Server.Runtime.{RuntimeBundle, build_runtime}
use go_mini_gateway.Server.Runtime.Total.{build_runtime_lem}
use go_mini_gateway.Server.Reload.{
  Server, new_admin_addr, install, exchange, given_path, allowed, build_error, new_server,
  new_with_config_path, prepare, reload,
}
use go_mini_gateway.Server.Reload.Closing.{Stops, close_runtime_resources-Stops}
use go_mini_gateway.Server.Reload.Exchange.{reload_cases}
use go_mini_gateway.Server.Reload.Installed.{
  bundle_of, Installs, install-Installs, Answers, route_dtos-Answers,
}
use go_mini_gateway.Server.Reload.Laws.{KeepsFixed, validate_reload_config_iff}

module _ (accepts : List Text → Text → Bool) (parse_url : Text → Option Url)
    (parse_duration : Text → Option ℤ) where
  -- The configuration is valid, the routes, limiters and handlers are those that it gives, and the
  -- addresses and settings of the administration are those that it names.
  pub record IsConsistent (s : Server) : Type 0 where
    pub config : IsConfig parse_url parse_duration s.current_config
    pub runtime :
        build_runtime accepts parse_url parse_duration s.current_config ≡ done (bundle_of s)
    pub fixed : KeepsFixed s s.current_config

  -- A server that was started with a valid configuration is consistent.
  pub new-IsConsistent :
      (c : Config) (path : Text) (s : Server)
      → IsConfig parse_url parse_duration c
      → new_with_config_path accepts parse_url parse_duration c path ≡ done s
      → IsConsistent s
  unfolding new_with_config_path new_admin_addr
  new-IsConsistent c path s v h =
      let (b, eb, es) = first_done _ (build_runtime accepts parse_url parse_duration c) h in
      let same : new_server accepts parse_url parse_duration c path b ≡ s = cc in
      subst IsConsistent same (record {
        config = v;
        runtime = eb;
        fixed = record {
          addr = refl;
          shutdown_timeout = refl;
          admin_enabled = refl;
          admin_addr = ground arith;
          admin_token = refl;
          metrics_require_token = refl;
          pprof_enabled = refl;
        };
      })

  module _ (read_file : Text → Option Text) (unmarshal : Text → Option Config)
      (lookup_env : Text → Option Text) where
    install-IsConsistent :
        (s : Server) (c : Config) (b : RuntimeBundle)
        → IsConsistent s
        → IsConfig parse_url parse_duration c
        → KeepsFixed s c
        → build_runtime accepts parse_url parse_duration c ≡ done b
        → IsConsistent (install s c b)
    unfolding install
    install-IsConsistent s c b v w k r = record {
      config = w;
      runtime = r;
      fixed = record {
        addr = k.addr;
        shutdown_timeout = refl;
        admin_enabled = k.admin_enabled;
        admin_addr = k.admin_addr;
        admin_token = k.admin_token;
        metrics_require_token = k.metrics_require_token;
        pprof_enabled = k.pprof_enabled;
      };
    }

    -- Whatever stands in the file and in the environment, a reload of a consistent server leaves it
    -- consistent.
    reload-IsConsistent :
        (f : Formats) (now : Time) (s : Server)
        → IsConsistent s
        → IsConsistent
            (reload accepts parse_url parse_duration read_file unmarshal lookup_env f now s).0
    reload-IsConsistent f now s v =
        elim (reload_cases accepts parse_url parse_duration read_file unmarshal lookup_env f now
          s) [
            | inl (same, _, _) ↦ subst IsConsistent (sym same) v
            | inr (c, b, l, k, r, new, _, _) ↦
                let (w, _) =
                  load-IsConfig read_file unmarshal lookup_env parse_url parse_duration
                    s.config_path c l in
                subst IsConsistent (sym new) (install-IsConsistent s c b v w k r)
          ]

    -- With a mux that takes literal patterns as net/http documents it, and a server that has a path: when the
    -- file loads, keeps the fixed fields, and has literal prefixes whose patterns stand only once, a reload
    -- answers with the routes of the runtime that buildRuntime gives for the file; the server then holds that
    -- configuration and, in every field that a runtime fills, that runtime, its other fields are kept, and
    -- every health checker and rate limiter of the old runtime was told to stop.
    pub reload_succeeds :
        IsServeMux accepts
        → (f : Formats) (now : Time) (s : Server) (c : Config) → s.config_path ≢ []
        → load read_file unmarshal lookup_env parse_url parse_duration s.config_path ≡ ok c
        → KeepsFixed s c
        → All (λ r. IsLiteral r.prefix) c.routes
        → AllDistinct (system_patterns ++ all_route_patterns c.routes)
        → let (s', released, answer) =
            reload accepts parse_url parse_duration read_file unmarshal lookup_env f now s in
          (b : RuntimeBundle) × (build_runtime accepts parse_url parse_duration c ≡ done b)
          × Installs s c b s'
          × Stops s released
          × Answers b.routes answer
    unfolding reload prepare given_path exchange allowed build_error
    reload_succeeds m f now s c n l k literal distinct =
        let (w, _) =
          load-IsConfig read_file unmarshal lookup_env parse_url parse_duration s.config_path c l in
        let given_ : is_empty s.config_path ≡ false = ground (arith, n) in
        let valid = (validate_reload_config_iff s c).1 k in
        elim (build_runtime_lem accepts m parse_url parse_duration c w literal) [
          | inl (_, (b, r)) ↦ (
            b,
            r,
            rw (given_, l, valid, r) (install-Installs s c b),
            rw (given_, l, valid, r) (close_runtime_resources-Stops s),
            rw (given_, l, valid, r) (route_dtos-Answers f now b.routes),
          )
          | inr (not_distinct, _) ↦ absurd (not_distinct distinct)
        ]

  -- A reload, with what stands in the files and in the environment then, and its time.
  pub record Attempt : Type 0 where
    pub read_file : Text → Option Text
    pub lookup_env : Text → Option Text
    pub now : Time

  module _ (unmarshal : Text → Option Config) (f : Formats) where
    -- The server behind reloads, the first one first.
    abbrev pub reload_all : Server → List Attempt → Server
    reload_all s [] = s
    reload_all s (a ∷ attempts) =
        reload_all
          (reload accepts parse_url parse_duration a.read_file unmarshal a.lookup_env f a.now s).0
          attempts

    reload_all-IsConsistent :
        (s : Server) (attempts : List Attempt)
        → IsConsistent s
        → IsConsistent (reload_all s attempts)
    reload_all-IsConsistent s [] v = v
    reload_all-IsConsistent s (a ∷ attempts) v =
        reload_all-IsConsistent
          (reload accepts parse_url parse_duration a.read_file unmarshal a.lookup_env f a.now s).0
          attempts (reload-IsConsistent a.read_file unmarshal a.lookup_env f a.now s v)

    -- A server that was started with a valid configuration is consistent behind any reloads, whatever stands
    -- in the files and in the environment at each of them: its configuration is valid, its routes, limiters
    -- and handlers are those that buildRuntime gives for it, and the addresses and settings of the
    -- administration are those that it names.
    pub started-IsConsistent :
        (c : Config) (path : Text) (s : Server) (attempts : List Attempt)
        → IsConfig parse_url parse_duration c
        → new_with_config_path accepts parse_url parse_duration c path ≡ done s
        → IsConsistent (reload_all s attempts)
    started-IsConsistent c path s attempts v h =
        reload_all-IsConsistent s attempts (new-IsConsistent c path s v h)
