-- ===== src/Server/Process/Boot.antt =====
-- How main starts.
use go_mini_gateway.Common.{
  ◌≡◌, ◌⊎◌, inl, inr, refl, ℤ, Text, Bool, Option, some, some_of_ne_none, List, ◌++◌, All, Result,
  ok, err,
}
use go_mini_gateway.Url.{Url}
use go_mini_gateway.Config.Types.{Config}
use go_mini_gateway.Config.Durations
use go_mini_gateway.Config.Load.{LoadError, load, load-IsConfig}
use go_mini_gateway.Config.Validate.Spec.{AllDistinct}
use go_mini_gateway.Server.Outcome.{failed, panicked, done}
use go_mini_gateway.Server.Routes.Patterns.{
  IsLiteral, IsServeMux, system_patterns, all_route_patterns,
}
use go_mini_gateway.Server.Runtime.Total.{build_runtime_lem}
use go_mini_gateway.Server.Reload.{Server, new_server, new_with_config_path}
use go_mini_gateway.Server.Process.{load_failed, launch, created, boot}

Result-cases : {E A : Type 0} (r : Result E A) → ((e : E) × (r ≡ err e)) ⊎ ((a : A) × (r ≡ ok a))
Result-cases (err e) = inl (e, refl)
Result-cases (ok a) = inr (a, refl)

module _ (accepts : List Text → Text → Bool) (m : IsServeMux accepts)
    (parse_url : Text → Option Url) (parse_duration : Text → Option ℤ)
    (read_file : Text → Option Text) (unmarshal : Text → Option Config)
    (lookup_env : Text → Option Text) {E : Type 0} where
  -- With a mux that takes literal patterns as net/http documents it, and a file that loads to literal
  -- prefixes if it loads: main gives up exactly with the error of Load. Otherwise the server of the loaded
  -- configuration is launched when no pattern stands twice, and when one does, the mux panics. The shutdown
  -- timeout and NewWithConfigPath never fail.
  pub boot_lem :
      (path : Text)
      → ((c : Config)
          → load read_file unmarshal lookup_env parse_url parse_duration path ≡ ok c
          → All (λ r. IsLiteral r.prefix) c.routes)
      → ((e : LoadError) × (load read_file unmarshal lookup_env parse_url parse_duration path
            ≡ err e)
          × (boot accepts parse_url parse_duration read_file unmarshal lookup_env {E = E} path
              ≡ failed (load_failed e)))
        ⊎ ((c : Config) × (load read_file unmarshal lookup_env parse_url parse_duration path ≡ ok c)
            × ((AllDistinct (system_patterns ++ all_route_patterns c.routes)
                  × ((s : Server) × (timeout : ℤ) × (Durations.shutdown_timeout_duration
                          parse_duration c
                        ≡ some timeout)
                      × (new_with_config_path accepts parse_url parse_duration c path ≡ done s)
                      × (boot accepts parse_url parse_duration read_file unmarshal lookup_env
                            {E = E} path
                          ≡ done (launch s timeout))))
                ⊎ ((¬ AllDistinct (system_patterns ++ all_route_patterns c.routes))
                    × (boot accepts parse_url parse_duration read_file unmarshal lookup_env {E = E}
                          path
                        ≡ panicked))))
  unfolding boot created new_with_config_path Durations.shutdown_timeout_duration
  boot_lem path literal =
      elim (Result-cases (load read_file unmarshal lookup_env parse_url parse_duration path)) [
        | inl (e, l) ↦ inl (e, l, rw l refl)
        | inr (c, l) ↦
            let (v, _) =
              load-IsConfig read_file unmarshal lookup_env parse_url parse_duration path c l in
            let (t, et) = some_of_ne_none _ v.shutdown_timeout in
            inr (
              c,
              l,
              elim (build_runtime_lem accepts m parse_url parse_duration c v (literal c l)) [
                | inl (distinct, (b, r)) ↦ inl (
                  distinct,
                  (
                    new_server accepts parse_url parse_duration c path b,
                    t,
                    et,
                    rw r refl,
                    rw (l, et, r) refl,
                  ),
                )
                | inr (clash, r) ↦ inr (clash, rw (l, et, r) refl)
              ],
            )
      ]
