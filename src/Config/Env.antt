-- ===== src/Config/Env.antt =====
-- internal/config/env.go. `os.LookupEnv` is a parameter. Every error stops the expansion; its text is the
-- case, with the expression or the name that it quotes. The names of the fields in the wrapped errors are
-- left out.
pub mod Scan
pub mod Expression
use go_mini_gateway.Common.{
  ℕ, zero, suc, ◌+◌, ◌==◌, Text, Bool, true, false, not, ◌&&◌, Option, none, some, List, [], ◌∷◌,
  ◌++◌, is_empty, trim_space, index_byte, take, drop, length, if◌then◌else◌, Result, ok, err, ◌>>=◌,
}
use go_mini_gateway.Config.Types.{
  Config, ServerConfig, AdminConfig, RouteConfig, UpstreamConfig, HealthCheckConfig,
  PassiveHealthConfig, CircuitBreakerConfig,
}

pub data EnvError : Type 0 where
  missing_closing : Text → EnvError
  empty_expression : EnvError
  empty_name : Text → EnvError
  required : Text → EnvError
  out_of_fuel : EnvError

-- `expr[:index], expr[index+1:], true`, or `expr, "", false`.
split_at : Text → Option ℕ → Text × Text × Bool
split_at expr none = (expr, [], false)
split_at expr (some index) = (take index expr, drop (index + 1) expr, true)

unfoldable pub split_env_expression : Text → Text × Text × Bool
unfolding split_at index_byte take drop
split_env_expression expr = split_at expr (index_byte expr b':')

-- `value[i] != '$' || i+1 >= len(value) || value[i+1] != '{'` is false.
unfoldable pub opens : Text → Bool
opens [] = false
opens (c ∷ []) = false
opens (c ∷ d ∷ s) = c == b'$' && d == b'{'

module _ (lookup_env : Text → Option Text) where
  -- A variable that is set and not empty, or else the default, if there is one.
  choose : Text → Text → Bool → Option Text → Result EnvError Text
  choose name default_value has_default none =
      if has_default then ok default_value else err (required name)
  choose name default_value has_default (some value) =
      if not (is_empty value)
      then ok value
      else if has_default
      then ok default_value
      else err (required name)

  named : Text → Text × Text × Bool → Result EnvError Text
  unfolding choose
  named expr (raw_name, default_value, has_default) =
      let name = trim_space raw_name in
      if is_empty name
      then err (empty_name expr)
      else choose name default_value has_default (lookup_env name)

  unfoldable pub expand_env_expression : Text → Result EnvError Text
  unfolding named
  expand_env_expression raw =
      let expr = trim_space raw in
      if is_empty expr then err empty_expression else named expr (split_env_expression expr)

  -- Behind "${", with the place of the closing brace and the expansion of what follows it.
  closing : Text → Text → Option ℕ → (Text → Result EnvError Text) → Result EnvError Text
  unfolding expand_env_expression
  closing whole s none rest = err (missing_closing whole)
  closing whole s (some end) rest = do
    expanded ← expand_env_expression (take end s)
    more ← rest (drop (end + 1) s)
    ok (expanded ++ more)

  -- The loop over `i`, on what is left of the value. Each round takes one code point at least.
  expand_from : ℕ → Text → Result EnvError Text
  unfolding closing opens index_byte take drop
  expand_from fuel [] = ok []
  expand_from zero (c ∷ s) = err out_of_fuel
  expand_from (suc fuel) (c ∷ s) =
      let copied = expand_from fuel s >>= λ more. ok (c ∷ more) in
      if opens (c ∷ s)
      then closing (c ∷ s) (drop 1 s) (index_byte (drop 1 s) b'}') (expand_from fuel)
      else copied

  unfoldable pub expand_env_string : Text → Result EnvError Text
  unfolding expand_from
  expand_env_string value = expand_from (length value) value
