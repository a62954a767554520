-- ===== src/Proxy/Outcome.antt =====
-- What the handler reports about a completed request, to the passive health state and the circuit
-- breaker alike, and streaks of failures.
use go_mini_gateway.Common.{ℕ, ◌≡◌, ap, Text, Time, List, ◌∷◌, ◌++◌, length, All}

-- What `recordSuccess` or `recordFailure` is called with.
pub data Outcome : Type 0 where
  success : Time → Outcome
  failure : Time → Text → Outcome

abbrev pub IsFailure : Outcome → Type 0
IsFailure (success _) = ⊥
IsFailure (failure _ _) = Unit

-- Somewhere among the outcomes stand `t` failures in a row.
abbrev pub HasStreak : ℕ → List Outcome → Type 0
HasStreak t os =
    (pre : List Outcome) × (block : List Outcome) × (post : List Outcome) × (os
      ≡ pre ++ (block ++ post))
    × All IsFailure block
    × (length block ≡ t)

pub HasStreak-cons :
    (t : ℕ) (o : Outcome) (os : List Outcome) → HasStreak t os → HasStreak t (o ∷ os)
HasStreak-cons t o os (pre, block, post, e, f, n) = (o ∷ pre, block, post, ap (λ r. o ∷ r) e, f, n)
