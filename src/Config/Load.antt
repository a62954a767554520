-- ===== src/Config/Load.antt =====
-- `Load` of internal/config/config.go: a file to a configuration that is expanded, normalized and valid.
-- `os.ReadFile`, `json.Unmarshal` into an empty configuration, `os.LookupEnv`, `url.Parse` and
-- `time.ParseDuration` are parameters.
use mathlib.Core.Path.{subst}
use go_mini_gateway.Common.{
  ◌≡◌, refl, ℤ, Text, Option, none, some, All, Result, ok, err, ◌>>=◌, first_part,
}
use go_mini_gateway.Url.{Url}
use go_mini_gateway.Config.Types.{Config}
use go_mini_gateway.Config.Env.{EnvError}
use go_mini_gateway.Config.Expand.{expand_config_env}
use go_mini_gateway.Config.Normalize.{normalize}
use go_mini_gateway.Config.Normalize.Routes.{IsNormal, normalize-IsNormal}
use go_mini_gateway.Config.Validate.{ConfigError, validate}
use go_mini_gateway.Config.Validate.Spec.{IsConfig}
use go_mini_gateway.Config.Validate.Whole.{validate_iff}

pub data LoadError : Type 0 where
  read_failed parse_failed : LoadError
  expand_failed : EnvError → LoadError
  invalid : ConfigError → LoadError

-- A value, or an error of this kind.
given : {A : Type 0} → LoadError → Option A → Result LoadError A
given e none = err e
given e (some a) = ok a

expanded : Result EnvError Config → Result LoadError Config
expanded (err e) = err (expand_failed e)
expanded (ok c) = ok c

checked : Config → Option ConfigError → Result LoadError Config
checked c none = ok c
checked c (some e) = err (invalid e)

module _ (read_file : Text → Option Text) (unmarshal : Text → Option Config)
    (lookup_env : Text → Option Text) (parse_url : Text → Option Url)
    (parse_duration : Text → Option ℤ) where
  unfoldable pub load : Text → Result LoadError Config
  unfolding given expanded checked
  load path = do
    content ← given read_failed (read_file path)
    raw ← given parse_failed (unmarshal content)
    config ← expanded (expand_config_env lookup_env raw)
    checked (normalize config) (validate parse_url parse_duration (normalize config))

  checked-valid :
      (c d : Config) (o : Option ConfigError) → checked c o ≡ ok d → (o ≡ none) × (c ≡ d)
  unfolding checked
  checked-valid c d none h = (refl, cc)
  checked-valid c d (some e) h = cc

  -- A configuration that Load returns is valid field by field, and each of its routes is normal.
  pub load-IsConfig :
      (path : Text) (c : Config)
      → load path ≡ ok c
      → IsConfig parse_url parse_duration c × All IsNormal c.routes
  unfolding load
  load-IsConfig path c h =
      let (content, _, h1) = first_part _ (given read_failed (read_file path)) h in
      let (raw, _, h2) = first_part _ (given parse_failed (unmarshal content)) h1 in
      let (config, _, h3) = first_part _ (expanded (expand_config_env lookup_env raw)) h2 in
      let (valid, same) = checked-valid (normalize config) c _ h3 in
      (
        (validate_iff parse_url parse_duration c).0
            (subst (λ d. validate parse_url parse_duration d ≡ none) same valid),
        subst (λ d. All IsNormal d.routes) same (normalize-IsNormal config),
      )
