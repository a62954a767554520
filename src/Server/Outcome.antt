-- ===== src/Server/Outcome.antt =====
-- A Go function that returns a value and an error, or panics.
use mathlib.Core.Path.{subst}
use go_mini_gateway.Common.{Option, none, some, Result, ok, err, ◌≡◌, refl}

pub data Outcome (E A : Type 0) : Type 0 where
  failed : E → Outcome E A
  panicked : Outcome E A
  done : A → Outcome E A

-- What follows runs with the value.
infixl 5 ◌>>=◌
abbrev pub ◌>>=◌ : {E A B : Type 0} → Outcome E A → (A → Outcome E B) → Outcome E B
failed e >>= follow = failed e
panicked >>= follow = panicked
done a >>= follow = follow a

-- The value, or the error that a part of the function returned.
abbrev pub lift : {E F A : Type 0} → (F → E) → Result F A → Outcome E A
lift wrap (err e) = failed (wrap e)
lift wrap (ok a) = done a

abbrev pub given : {E A : Type 0} → E → Option A → Outcome E A
given e none = failed e
given e (some a) = done a

-- When the whole gives a value, so did its first part.
pub first_done :
    {E A B : Type 0} {b : B} (follow : A → Outcome E B) (o : Outcome E A)
    → (o >>= follow) ≡ done b
    → (a : A) × (o ≡ done a) × (follow a ≡ done b)
first_done follow (failed e) whole = cc
first_done follow panicked whole = cc
first_done follow (done a) whole = (a, refl, whole)

pub lift_done :
    {E F A : Type 0} {a : A} (wrap : F → E) (r : Result F A) → lift wrap r ≡ done a → r ≡ ok a
lift_done wrap (err e) h = cc
lift_done wrap (ok a) h = cc

-- What holds of each value that the rest gives, holds of the value of the whole.
pub bind_done :
    {E A B : Type 0} (P : B → Type 0) (o : Outcome E A) (follow : A → Outcome E B)
    → ((a : A) → o ≡ done a → (b : B) → follow a ≡ done b → P b)
    → (b : B) → (o >>= follow) ≡ done b
    → P b
bind_done P (failed e) follow h b whole = cc
bind_done P panicked follow h b whole = cc
bind_done P (done a) follow h b whole = h a refl b whole

pub of_done :
    {E A : Type 0} (P : A → Type 0) {a : A}
    → P a
    → (b : A) → ◌≡◌ {A = Outcome E A} (done a) (done b)
    → P b
of_done P p b e = subst P (cc) p
