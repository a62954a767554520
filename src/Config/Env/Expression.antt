-- ===== src/Config/Env/Expression.antt =====
-- What one reference, between its braces, is replaced by.
use go_mini_gateway.Common.{
  ◌≡◌, ◌≢◌, ◌⊎◌, refl, Text, Bool, true, false, Option, none, some, [], ◌∷◌, ◌++◌, arith, is_empty,
  trim_space, IsFreeOf, index_byte-append, index_byte_free, take-append, drop-append, sym, ap, ◌∙◌,
  inl, inr, ok, err,
}
use go_mini_gateway.Config.Env.{required, split_env_expression, expand_env_expression, choose}

split_colon :
    (name rest : Text)
    → IsFreeOf b':' name
    → split_env_expression (name ++ b':' ∷ rest) ≡ (name, rest, true)
unfolding split_env_expression
split_colon name rest h =
    rw (
      index_byte-append b':' name rest h,
      take-append name (b':' ∷ rest),
      drop-append name b':' rest,
    )

split_plain : (name : Text) → IsFreeOf b':' name → split_env_expression name ≡ (name, [], false)
unfolding split_env_expression
split_plain name h = rw (index_byte_free b':' name h)

expression_lem :
    (lookup_env : Text → Option Text) (raw name rest : Text) (has_default : Bool)
    → trim_space raw ≢ []
    → split_env_expression (trim_space raw) ≡ (name, rest, has_default)
    → trim_space name ≢ []
    → expand_env_expression lookup_env raw
      ≡ choose lookup_env (trim_space name) rest has_default (lookup_env (trim_space name))
unfolding expand_env_expression
expression_lem lookup_env raw name rest has_default given split named_ =
    let t : is_empty (trim_space raw) ≡ false = ground arith in
    let n : is_empty (trim_space name) ≡ false = ground arith in rw (t, split, n)

append-ne-nil : (name rest : Text) → name ++ b':' ∷ rest ≢ []
append-ne-nil [] rest = λ e. cc
append-ne-nil (c ∷ name) rest = λ e. cc

trim_space_nil : trim_space [] ≡ []
unfolding trim_space
trim_space_nil = refl

-- A value that is found, or what stands in for it.
choose_default :
    (lookup_env : Text → Option Text) (name rest : Text) (found : Option Text)
    → ((value : Text) × (found ≡ some value)
        × (value ≢ [])
        × (choose lookup_env name rest true found ≡ ok value))
      ⊎ (((found ≡ none) ⊎ (found ≡ some [])) × (choose lookup_env name rest true found ≡ ok rest))
unfolding choose
choose_default lookup_env name rest none = inr (inl refl, refl)
choose_default lookup_env name rest (some []) = inr (inr refl, refl)
choose_default lookup_env name rest (some (c ∷ v)) = inl (c ∷ v, refl, λ e. ground arith, refl)

choose_required :
    (lookup_env : Text → Option Text) (name : Text) (found : Option Text)
    → ((value : Text) × (found ≡ some value)
        × (value ≢ [])
        × (choose lookup_env name [] false found ≡ ok value))
      ⊎ (((found ≡ none) ⊎ (found ≡ some []))
          × (choose lookup_env name [] false found ≡ err (required name)))
unfolding choose
choose_required lookup_env name none = inr (inl refl, refl)
choose_required lookup_env name (some []) = inr (inr refl, refl)
choose_required lookup_env name (some (c ∷ v)) = inl (c ∷ v, refl, λ e. ground arith, refl)

module _ (lookup_env : Text → Option Text) (raw name : Text) (free : IsFreeOf b':' name)
    (named_ : trim_space name ≢ []) where
  -- "${NAME:default}": the value of the variable if it is set and not empty, and else what stands behind
  -- the first colon, as it is, further colons included.
  expression_default :
      (rest : Text)
      → trim_space raw ≡ name ++ b':' ∷ rest
      → ((value : Text) × (lookup_env (trim_space name) ≡ some value)
          × (value ≢ [])
          × (expand_env_expression lookup_env raw ≡ ok value))
        ⊎ (((lookup_env (trim_space name) ≡ none) ⊎ (lookup_env (trim_space name) ≡ some []))
            × (expand_env_expression lookup_env raw ≡ ok rest))
  expression_default rest e =
      let given : trim_space raw ≢ [] = λ z. append-ne-nil name rest (sym e ∙ z) in
      let split = ap split_env_expression e ∙ split_colon name rest free in
      rw (expression_lem lookup_env raw name rest true given split named_)
        (choose_default lookup_env (trim_space name) rest (lookup_env (trim_space name)))

  -- "${NAME}": the value of the variable, and an error if it is not set or empty.
  expression_required :
      trim_space raw ≡ name
      → ((value : Text) × (lookup_env (trim_space name) ≡ some value)
          × (value ≢ [])
          × (expand_env_expression lookup_env raw ≡ ok value))
        ⊎ (((lookup_env (trim_space name) ≡ none) ⊎ (lookup_env (trim_space name) ≡ some []))
            × (expand_env_expression lookup_env raw ≡ err (required (trim_space name))))
  expression_required e =
      let given : trim_space raw ≢ [] = λ z. named_ (ap trim_space (sym e ∙ z) ∙ trim_space_nil) in
      let split = ap split_env_expression e ∙ split_plain name free in
      rw (expression_lem lookup_env raw name [] false given split named_)
        (choose_required lookup_env (trim_space name) (lookup_env (trim_space name)))
