-- ===== src/Common/Maps.antt =====
-- A Go map as the list of its entries: a key that is written again keeps its place.
use Prim.Native.Nat.{ℕ, ◌+◌}
use mathlib.Core.Path.{◌≡◌, refl}
use mathlib.Core.Logic.{◌↔◌}
use mathlib.Core.Bool.{Bool, true}
use mathlib.Core.Option.{Option, none, some}
use mathlib.Core.List.{List, [], ◌∷◌}
use native.Mathlib.Omega.{arith}
use go_mini_gateway.Common.Tests.{if◌then◌else◌}

module _ {K V : Type 0} (eq : K → K → Bool) where
  -- `m[k]`, none if the key is not there.
  unfoldable pub lookup : K → List (K × V) → Option V
  lookup k [] = none
  lookup k ((j, v) ∷ m) = if eq j k then some v else lookup k m

  -- `m[k] = v`
  unfoldable pub insert : K → V → List (K × V) → List (K × V)
  insert k v [] = (k, v) ∷ []
  insert k v ((j, w) ∷ m) = if eq j k then (j, v) ∷ m else (j, w) ∷ insert k v m

  module _ (eq_iff : (a b : K) → (eq a b ≡ true) ↔ (a ≡ b)) where
    -- A write is read at its own key, and at no other one.
    pub lookup-insert :
        (written asked : K) (new : V) (m : List (K × V))
        → lookup asked (insert written new m)
          ≡ (if eq written asked then some new else lookup asked m)
    unfolding lookup insert
    lookup-insert written asked new [] = refl
    lookup-insert written asked new ((key, _) ∷ rest) = ground (
      arith,
      lookup-insert written asked new rest,
      eq_iff key asked,
      eq_iff key written,
      eq_iff written asked,
    )

-- The value at a key, 0 if it is not there.
abbrev pub or_zero : Option ℕ → ℕ
or_zero none = 0
or_zero (some n) = n

-- The sum of what a function makes of the values.
abbrev pub sum_of : {A : Type 0} → (A → ℕ) → List A → ℕ
sum_of f [] = 0
sum_of f (a ∷ as_) = f a + sum_of f as_

abbrev pub weight : {V : Type 0} → (V → ℕ) → Option V → ℕ
weight f none = 0
weight f (some v) = f v

-- Those that a test holds of.
abbrev pub retain : {A : Type 0} → (A → Bool) → List A → List A
retain p [] = []
retain p (a ∷ as_) = if p a then a ∷ retain p as_ else retain p as_

-- The number of them.
abbrev pub count_if : {A : Type 0} → (A → Bool) → List A → ℕ
count_if p [] = 0
count_if p (a ∷ as_) = (if p a then 1 else 0) + count_if p as_

module _ {K V : Type 0} (eq : K → K → Bool) (f : V → ℕ) where
  -- A write takes the old value out of the sum and puts the new one in.
  pub sum_of-insert :
      (k : K) (v : V) (m : List (K × V))
      → sum_of (λ e. f e.1) (insert eq k v m) + weight f (lookup eq k m)
        ≡ sum_of (λ e. f e.1) m + f v
  unfolding lookup insert
  sum_of-insert k v [] = omega arith
  sum_of-insert k v ((j, w) ∷ m) = ground (arith, sum_of-insert k v m)
