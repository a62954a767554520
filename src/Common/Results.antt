-- ===== src/Common/Results.antt =====
-- A Go function that returns a value and an error: either its value, or the error that is not nil.
use mathlib.Core.Path.{◌≡◌, refl}
use mathlib.Core.Logic.{◌≢◌}

pub data Result (E A : Type 0) : Type 0 where
  err : E → Result E A
  ok : A → Result E A

-- `if err != nil { return err }`, and what follows with the value.
infixl 5 ◌>>=◌
abbrev pub ◌>>=◌ : {E A B : Type 0} → Result E A → (A → Result E B) → Result E B
err e >>= follow = err e
ok a >>= follow = follow a

-- When the whole succeeds, so did its first part.
pub first_part :
    {E A B : Type 0} {b : B} (follow : A → Result E B) (r : Result E A)
    → (r >>= follow) ≡ ok b
    → (a : A) × (r ≡ ok a) × (follow a ≡ ok b)
first_part follow (err e) whole = cc
first_part follow (ok a) whole = (a, refl, whole)

-- What is no error is a value.
pub ok_of_ne_err : {E A : Type 0} (r : Result E A) → ((e : E) → r ≢ err e) → (a : A) × (r ≡ ok a)
ok_of_ne_err (err e) h = absurd (h e refl)
ok_of_ne_err (ok a) h = (a, refl)
