-- ===== src/Server/Reload/Exchange.antt =====
-- A reload is all or nothing.
use mathlib.Core.Path.{subst}
use go_mini_gateway.Common.{
  ◌≡◌, ◌⊎◌, inl, inr, refl, sym, ap, ◌∙◌, ℤ, Text, Time, Bool, Option, none, some, List, ok, arith,
}
use go_mini_gateway.Url.{Url}
use go_mini_gateway.Config.Types.{Config}
use go_mini_gateway.Config.Load.{load}
use go_mini_gateway.Proxy.Snapshots.{Formats}
use go_mini_gateway.Server.Outcome.{Outcome, failed, panicked, done, lift, first_done, lift_done}
use go_mini_gateway.Server.Routes.{RuntimeError}
use go_mini_gateway.Server.Runtime.{RuntimeBundle, build_runtime}
use go_mini_gateway.Server.Admin.{route_dtos}
use go_mini_gateway.Server.Reload.{
  Server, ReloadError, load_failed, validate_reload_config, close_runtime_resources, no_resources,
  install, exchange, given_path, allowed, build_error, prepare, reload,
}
use go_mini_gateway.Server.Reload.Closing.{Stops, close_runtime_resources-Stops}
use go_mini_gateway.Server.Reload.Installed.{
  Installs, install-Installs, Answers, route_dtos-Answers,
}
use go_mini_gateway.Server.Reload.Laws.{KeepsFixed, validate_reload_config_iff}

allowed_done : (c d : Config) (o : Option ReloadError) → allowed c o ≡ done d → (o ≡ none) × (c ≡ d)
unfolding allowed
allowed_done c d none h = (refl, cc)
allowed_done c d (some e) h = cc

build_done : {A : Type 0} (a : A) (o : Outcome RuntimeError A) → build_error o ≡ done a → o ≡ done a
unfolding build_error
build_done a (failed e) h = cc
build_done a panicked h = cc
build_done a (done b) h = cc

given_path_done : (p q : Text) → given_path p ≡ done q → q ≡ p
unfolding given_path
given_path_done p q h = ground arith

module _ (accepts : List Text → Text → Bool) (parse_url : Text → Option Url)
    (parse_duration : Text → Option ℤ) where
  module _ (read_file : Text → Option Text) (unmarshal : Text → Option Config)
      (lookup_env : Text → Option Text) where
    -- What stands behind a preparation that succeeds.
    prepare_done :
        (s : Server) (c : Config) (b : RuntimeBundle)
        → prepare accepts parse_url parse_duration read_file unmarshal lookup_env s ≡ done (c, b)
        → (load read_file unmarshal lookup_env parse_url parse_duration s.config_path ≡ ok c)
          × KeepsFixed s c
          × (build_runtime accepts parse_url parse_duration c ≡ done b)
    unfolding prepare
    prepare_done s c b h =
        let (path, ep, h1) = first_done _ (given_path s.config_path) h in
        let (loaded, el, h2) =
          first_done _
            (lift load_failed (load read_file unmarshal lookup_env parse_url parse_duration path))
            h1 in
        let (kept, ek, h3) = first_done _ (allowed loaded (validate_reload_config s loaded)) h2 in
        let (built, eb, h4) =
          first_done _ (build_error (build_runtime accepts parse_url parse_duration kept)) h3 in
        let same : path ≡ s.config_path = given_path_done s.config_path path ep in
        let (valid, ekept) = allowed_done loaded kept (validate_reload_config s loaded) ek in
        let ec : kept ≡ c = cc in
        let eloaded : loaded ≡ c = ekept ∙ ec in
        let ebuilt : built ≡ b = cc in
        let l : load read_file unmarshal lookup_env parse_url parse_duration path ≡ ok loaded =
          lift_done load_failed _ el in
        let r : build_runtime accepts parse_url parse_duration kept ≡ done built =
          build_done built _ eb in
        (
          sym (ap (λ p. load read_file unmarshal lookup_env parse_url parse_duration p) same)
              ∙ l
              ∙ ap ok eloaded,
          (validate_reload_config_iff s c).0
              (subst (λ d. validate_reload_config s d ≡ none) eloaded valid),
          sym (ap (λ d. build_runtime accepts parse_url parse_duration d) ec) ∙ r ∙ ap done ebuilt,
        )

    -- The two ways in which a reload ends, in terms of what it runs.
    pub reload_cases :
        (f : Formats) (now : Time) (s : Server)
        → let (s', released, answer) =
            reload accepts parse_url parse_duration read_file unmarshal lookup_env f now s in
          ((s' ≡ s)
            × (released ≡ no_resources)
            × (((e : ReloadError) × (answer ≡ failed e)) ⊎ (answer ≡ panicked)))
          ⊎ ((c : Config) × (b : RuntimeBundle) × (load read_file unmarshal lookup_env parse_url
                  parse_duration s.config_path
                ≡ ok c)
              × KeepsFixed s c
              × (build_runtime accepts parse_url parse_duration c ≡ done b)
              × (s' ≡ install s c b)
              × (released ≡ close_runtime_resources s.proxy_handlers s.rate_limiters)
              × (answer ≡ done (route_dtos f now b.routes)))
    unfolding reload exchange
    reload_cases f now s =
        go (prepare accepts parse_url parse_duration read_file unmarshal lookup_env s)
          (prepare_done s)
      where
        go :
            (o : Outcome ReloadError (Config × RuntimeBundle))
            → ((c : Config) (b : RuntimeBundle)
                → o ≡ done (c, b)
                → (load read_file unmarshal lookup_env parse_url parse_duration s.config_path
                    ≡ ok c)
                  × KeepsFixed s c
                  × (build_runtime accepts parse_url parse_duration c ≡ done b))
            → let (s', released, answer) = exchange f now s o in
              ((s' ≡ s)
                × (released ≡ no_resources)
                × (((e : ReloadError) × (answer ≡ failed e)) ⊎ (answer ≡ panicked)))
              ⊎ ((c : Config) × (b : RuntimeBundle) × (load read_file unmarshal lookup_env parse_url
                      parse_duration s.config_path
                    ≡ ok c)
                  × KeepsFixed s c
                  × (build_runtime accepts parse_url parse_duration c ≡ done b)
                  × (s' ≡ install s c b)
                  × (released ≡ close_runtime_resources s.proxy_handlers s.rate_limiters)
                  × (answer ≡ done (route_dtos f now b.routes)))
        go (failed e) h = inl (refl, refl, inl (e, refl))
        go panicked h = inl (refl, refl, inr refl)
        go (done (c, b)) h = let (l, k, r) = h c b refl in inr (c, b, l, k, r, refl, refl, refl)

    -- A reload is all or nothing. Either the server is as it was, nothing is closed, and the answer is an
    -- error or the call panics; or the file loads and keeps the fixed fields, the server holds that
    -- configuration and, in every field that a runtime fills, what buildRuntime gives for it, its other fields
    -- are kept, every health checker and rate limiter of the old runtime was told to stop, and the answer
    -- describes the new routes.
    pub reload_lem :
        (f : Formats) (now : Time) (s : Server)
        → let (s', released, answer) =
            reload accepts parse_url parse_duration read_file unmarshal lookup_env f now s in
          ((s' ≡ s)
            × (released ≡ no_resources)
            × (((e : ReloadError) × (answer ≡ failed e)) ⊎ (answer ≡ panicked)))
          ⊎ ((c : Config) × (b : RuntimeBundle) × (load read_file unmarshal lookup_env parse_url
                  parse_duration s.config_path
                ≡ ok c)
              × KeepsFixed s c
              × (build_runtime accepts parse_url parse_duration c ≡ done b)
              × Installs s c b s'
              × Stops s released
              × Answers b.routes answer)
    reload_lem f now s = elim (reload_cases f now s) [
      | inl same ↦ inl same
      | inr (c, b, l, k, r, new, closed, answer) ↦ inr (
        c,
        b,
        l,
        k,
        r,
        subst (Installs s c b) (sym new) (install-Installs s c b),
        subst (Stops s) (sym closed) (close_runtime_resources-Stops s),
        subst (Answers b.routes) (sym answer) (route_dtos-Answers f now b.routes),
      )
    ]
