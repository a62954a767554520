-- ===== src/Config/Env/Scan.antt =====
-- The expansion of a whole value: the fuel is enough, and a value is expanded piece by piece.
use go_mini_gateway.Common.{
  ℕ, zero, suc, ◌+◌, ◌≤◌, ◌≡◌, ◌≢◌, refl, Text, false, Option, none, some, [], ◌∷◌, ◌++◌, arith,
  index_byte, take, drop, length, codes, IsFreeOf, index_byte-append, take-append, drop-append,
  length-drop, if◌then◌else◌, Result, ok, err, ◌>>=◌,
}
use go_mini_gateway.Config.Env.{
  EnvError, out_of_fuel, opens, closing, expand_from, expand_env_string, expand_env_expression,
}

module _ (lookup_env : Text → Option Text) where
  closing-cong :
      (whole s : Text) (o : Option ℕ) (f g : Text → Result EnvError Text)
      → ((n : ℕ) → f (drop n s) ≡ g (drop n s))
      → closing lookup_env whole s o f ≡ closing lookup_env whole s o g
  unfolding closing
  closing-cong whole s none f g h = refl
  closing-cong whole s (some end) f g h = rw (h (end + 1))

  expand_from-fuel :
      (f g : ℕ) (s : Text)
      → length s ≤ f
      → length s ≤ g
      → expand_from lookup_env f s ≡ expand_from lookup_env g s
  unfolding expand_from
  expand_from-fuel zero zero s h k = refl
  expand_from-fuel f g [] h k = refl
  expand_from-fuel (suc f) (suc g) (c ∷ s) h k =
      let tail = λ (n : ℕ).
        expand_from-fuel f g (drop n (drop 1 s))
          (omega (arith, length-drop n (drop 1 s), length-drop 1 s))
          (omega (arith, length-drop n (drop 1 s), length-drop 1 s)) in
      rw (
        expand_from-fuel f g s (omega arith) (omega arith),
        closing-cong (c ∷ s) (drop 1 s) (index_byte (drop 1 s) b'}') (expand_from lookup_env f)
            (expand_from lookup_env g) tail,
      )
  expand_from-fuel f g (c ∷ s) h k = absurd (omega arith)

  expression-ne-out_of_fuel : (raw : Text) → expand_env_expression lookup_env raw ≢ err out_of_fuel
  unfolding expand_env_expression
  expression-ne-out_of_fuel raw = ground arith

  closing-ne-out_of_fuel :
      (whole s : Text) (o : Option ℕ) (f : Text → Result EnvError Text)
      → ((n : ℕ) → f (drop n s) ≢ err out_of_fuel)
      → closing lookup_env whole s o f ≢ err out_of_fuel
  unfolding closing
  closing-ne-out_of_fuel whole s none f h = λ e. cc
  closing-ne-out_of_fuel whole s (some end) f h =
      ground (arith, h (end + 1), expression-ne-out_of_fuel (take end s))

  expand_from-ne-out_of_fuel :
      (f : ℕ) (s : Text) → length s ≤ f → expand_from lookup_env f s ≢ err out_of_fuel
  unfolding expand_from
  expand_from-ne-out_of_fuel f [] h = λ e. cc
  expand_from-ne-out_of_fuel zero (c ∷ s) h = absurd (omega arith)
  expand_from-ne-out_of_fuel (suc f) (c ∷ s) h =
      let tail = λ (n : ℕ).
        expand_from-ne-out_of_fuel f (drop n (drop 1 s))
          (omega (arith, length-drop n (drop 1 s), length-drop 1 s)) in
      ground (
        arith,
        expand_from-ne-out_of_fuel f s (omega arith),
        closing-ne-out_of_fuel (c ∷ s) (drop 1 s) (index_byte (drop 1 s) b'}')
            (expand_from lookup_env f) tail,
      )

  -- One round of the loop: a code point is copied, unless a reference opens there.
  expand_env_string-cons :
      (c : ℕ) (s : Text)
      → expand_env_string lookup_env (c ∷ s) ≡ (
          if opens (c ∷ s)
          then closing lookup_env
              (c ∷ s)
              (drop 1 s)
              (index_byte (drop 1 s) b'}')
              (expand_env_string lookup_env)
          else expand_env_string lookup_env s >>= λ more. ok (c ∷ more))
  unfolding expand_env_string expand_from
  expand_env_string-cons c s =
      let tail = λ (n : ℕ).
        expand_from-fuel (length s) (length (drop n (drop 1 s))) (drop n (drop 1 s))
          (omega (arith, length-drop n (drop 1 s), length-drop 1 s)) (omega arith) in
      rw (
        closing-cong (c ∷ s) (drop 1 s) (index_byte (drop 1 s) b'}')
          (expand_from lookup_env (length s)) (λ t. expand_from lookup_env (length t) t) tail)

-- No reference opens in the text.
abbrev pub IsLiteral : Text → Type 0
IsLiteral [] = Unit
IsLiteral (c ∷ s) = (opens (c ∷ s) ≡ false) × IsLiteral s

opens-append : (c : ℕ) (s t : Text) → opens (c ∷ s) ≡ false → opens (c ∷ s ++ b'$' ∷ t) ≡ false
unfolding opens
opens-append c [] t h = ground arith
opens-append c (d ∷ s) t h = h

copied :
    (c : ℕ) (s : Text) (m n : Result EnvError Text)
    → (m >>= (λ v. n >>= λ p. ok (s ++ (v ++ p))) >>= λ more. ok (c ∷ more))
      ≡ (m >>= λ v. n >>= λ p. ok (c ∷ s ++ (v ++ p)))
copied c s (ok v) (ok p) = refl
copied c s (ok v) (err e) = refl
copied c s (err e) n = refl

module _ (lookup_env : Text → Option Text) where
  -- The expansion ends, whatever the value: the fuel that it is given is enough.
  pub expand_env_string_total :
      (value : Text) → expand_env_string lookup_env value ≢ err out_of_fuel
  unfolding expand_env_string
  expand_env_string_total value =
      expand_from-ne-out_of_fuel lookup_env (length value) value (omega arith)

  expand_env_string_empty : expand_env_string lookup_env [] ≡ ok []
  unfolding expand_env_string expand_from
  expand_env_string_empty = refl

  -- A value in which no "${" stands is left as it is.
  pub expand_env_string_literal :
      (value : Text) → IsLiteral value → expand_env_string lookup_env value ≡ ok value
  expand_env_string_literal [] h = expand_env_string_empty
  expand_env_string_literal (c ∷ s) (n, h) =
      rw (expand_env_string-cons lookup_env c s, n, expand_env_string_literal s h)

  reference_here :
      (expr post : Text)
      → IsFreeOf b'}' expr
      → expand_env_string lookup_env (codes "${" ++ (expr ++ b'}' ∷ post)) ≡ (
          expand_env_expression lookup_env expr >>= λ v.
          expand_env_string lookup_env post >>= λ p. ok (v ++ p))
  unfolding closing opens drop
  reference_here expr post h =
      rw
        (
          expand_env_string-cons lookup_env b'$' (b'{' ∷ expr ++ b'}' ∷ post),
          index_byte-append b'}' expr post h,
        )
        (rw (take-append expr (b'}' ∷ post), drop-append expr b'}' post))

  -- A value is expanded from left to right: the text in front of the first "${" is copied, the expression
  -- up to the next brace is replaced by its value, and the rest is expanded in the same way; an error of
  -- either part is the error of the whole.
  pub expand_env_string_reference :
      (pre expr post : Text)
      → IsLiteral pre
      → IsFreeOf b'}' expr
      → expand_env_string lookup_env (pre ++ (codes "${" ++ (expr ++ b'}' ∷ post))) ≡ (
          expand_env_expression lookup_env expr >>= λ v.
          expand_env_string lookup_env post >>= λ p. ok (pre ++ (v ++ p)))
  expand_env_string_reference [] expr post l h = reference_here expr post h
  expand_env_string_reference (c ∷ s) expr post (n, l) h =
      rw
        (
          expand_env_string-cons lookup_env c _,
          opens-append c s (b'{' ∷ expr ++ b'}' ∷ post) n,
          expand_env_string_reference s expr post l h,
        )
        (copied c s (expand_env_expression lookup_env expr) (expand_env_string lookup_env post))
