-- ===== src/Proxy/Breaker/Trip.antt =====
-- When a closed circuit breaker opens: the outcomes that it is told of, and their streaks.
use go_mini_gateway.Common.{
  ℕ, ◌+◌, ◌≤◌, ◌≡◌, ◌⊎◌, ◌↔◌, inl, inr, refl, ap, Text, Time, List, [], ◌∷◌, ◌++◌, ◌∙◌, arith,
  length, All,
}
use go_mini_gateway.Proxy.Outcome.{Outcome, success, failure, IsFailure, HasStreak, HasStreak-cons}
use go_mini_gateway.Proxy.Breaker.{closed, opened, CircuitBreaker, record_success, record_failure}
use go_mini_gateway.Proxy.Breaker.Invariant.{
  IsValid, record_success-IsValid, record_failure-IsValid,
}

unfoldable pub record_outcome : CircuitBreaker → Outcome → CircuitBreaker
record_outcome c (success now) = record_success c now
record_outcome c (failure now reason) = record_failure c now reason

unfoldable pub record_outcomes : CircuitBreaker → List Outcome → CircuitBreaker
unfolding record_outcome
record_outcomes c [] = c
record_outcomes c (o ∷ os) = record_outcomes (record_outcome c o) os

record_outcomes-append :
    (c : CircuitBreaker) (xs ys : List Outcome)
    → record_outcomes c (xs ++ ys) ≡ record_outcomes (record_outcomes c xs) ys
unfolding record_outcomes
record_outcomes-append c [] ys = refl
record_outcomes-append c (x ∷ xs) ys = record_outcomes-append (record_outcome c x) xs ys

record_outcome-IsValid :
    (c : CircuitBreaker) (o : Outcome) → IsValid c → IsValid (record_outcome c o)
unfolding record_outcome
record_outcome-IsValid c (success now) v = record_success-IsValid c now v
record_outcome-IsValid c (failure now reason) v = record_failure-IsValid c now reason v

-- An outcome never ends the open state; only `allow` does.
record_outcome_opened :
    (c : CircuitBreaker) (o : Outcome) → c.state ≡ opened → (record_outcome c o).state ≡ opened
unfolding record_outcome record_success record_failure
record_outcome_opened c o h = ground arith

record_outcomes_opened :
    (c : CircuitBreaker) (os : List Outcome)
    → c.state ≡ opened
    → (record_outcomes c os).state ≡ opened
unfolding record_outcomes
record_outcomes_opened c [] h = h
record_outcomes_opened c (o ∷ os) h =
    record_outcomes_opened (record_outcome c o) os (record_outcome_opened c o h)

module _ (c : CircuitBreaker) (v : IsValid c) (shut : c.state ≡ closed) where
  closed-record_success :
      (now : Time)
      → let d = record_success c now in
        (d.state ≡ closed)
        × (d.consecutive_failures ≡ 0)
        × (d.failure_threshold ≡ c.failure_threshold)
  unfolding record_success
  closed-record_success now = ground arith

  closed-record_failure :
      (now : Time) (reason : Text)
      → let d = record_failure c now reason in
        (d.failure_threshold ≡ c.failure_threshold)
        × (((d.state ≡ opened) × (c.consecutive_failures + 1 ≡ c.failure_threshold))
            ⊎ ((d.state ≡ closed) × (d.consecutive_failures ≡ c.consecutive_failures + 1)))
  unfolding record_failure
  closed-record_failure now reason = ground arith

-- The first outcomes are failures, enough of them to take the counter from `k` to `t`.
abbrev Streak : ℕ → ℕ → List Outcome → Type 0
Streak t k os =
    (block : List Outcome) × (post : List Outcome) × (os ≡ block ++ post)
    × All IsFailure block
    × (k + length block ≡ t)

-- An open breaker has seen the rest of a streak, or a whole one.
opened→streak :
    (os : List Outcome) (c : CircuitBreaker) (t k : ℕ)
    → IsValid c
    → c.state ≡ closed
    → c.consecutive_failures ≡ k
    → c.failure_threshold ≡ t
    → (record_outcomes c os).state ≡ opened
    → Streak t k os ⊎ HasStreak t os
unfolding record_outcomes
opened→streak [] c t k v s ek et h = cc
opened→streak (success now ∷ os) c t k v s ek et h =
    let (s', z, same) = closed-record_success c v s now in
    elim (opened→streak os (record_success c now) t 0 (record_success-IsValid c now v) s' z
      (same ∙ et) h) [
        | inl (block, post, e, f, n) ↦
            inr (success now ∷ [], block, post, ap (λ r. success now ∷ r) e, f, omega arith)
        | inr found ↦ inr (HasStreak-cons t _ os found)
      ]
opened→streak (failure now reason ∷ os) c t k v s ek et h =
    let (same, next) = closed-record_failure c v s now reason in
    elim next [
      | inl (_, full) ↦ inl (failure now reason ∷ [], os, refl, (tt, tt), omega arith)
      | inr (s', more) ↦
          elim (opened→streak os (record_failure c now reason) t (k + 1)
            (record_failure-IsValid c now reason v) s' (more ∙ ap (λ n. n + 1) ek) (same ∙ et) h) [
              | inl (block, post, e, f, n) ↦ inl (
                failure now reason ∷ block,
                post,
                ap (λ r. failure now reason ∷ r) e,
                (tt, f),
                omega arith,
              )
              | inr found ↦ inr (HasStreak-cons t _ os found)
            ]
    ]

-- Enough failures in a row open a closed breaker.
failures_open :
    (block : List Outcome) (c : CircuitBreaker)
    → IsValid c
    → c.state ≡ closed
    → All IsFailure block
    → c.failure_threshold ≤ c.consecutive_failures + length block
    → (record_outcomes c block).state ≡ opened
unfolding record_outcomes
failures_open [] c v s f n = absurd (ground (arith, v.counts))
failures_open (success now ∷ block) c v s (f, _) n = absurd f
failures_open (failure now reason ∷ block) c v s (_, fs) n =
    let (same, next) = closed-record_failure c v s now reason in
    elim next [
      | inl (done, _) ↦ record_outcomes_opened (record_failure c now reason) block done
      | inr (s', more) ↦
          failures_open block (record_failure c now reason) (record_failure-IsValid c now reason v)
            s' fs (omega arith)
    ]

-- Outcomes leave a closed breaker closed or opened, with its threshold.
closed-record_outcomes :
    (os : List Outcome) (c : CircuitBreaker)
    → IsValid c
    → c.state ≡ closed
    → let d = record_outcomes c os in
      (d.state ≡ opened)
      ⊎ (IsValid d × (d.state ≡ closed) × (d.failure_threshold ≡ c.failure_threshold))
unfolding record_outcomes
closed-record_outcomes [] c v s = inr (v, s, refl)
closed-record_outcomes (success now ∷ os) c v s =
    let (s', _, same) = closed-record_success c v s now in
    elim (closed-record_outcomes os (record_success c now) (record_success-IsValid c now v) s') [
      | inl o ↦ inl o
      | inr (w, s'', e) ↦ inr (w, s'', e ∙ same)
    ]
closed-record_outcomes (failure now reason ∷ os) c v s =
    let (same, next) = closed-record_failure c v s now reason in
    elim next [
      | inl (done, _) ↦ inl (record_outcomes_opened (record_failure c now reason) os done)
      | inr (s', _) ↦
          elim (closed-record_outcomes os (record_failure c now reason)
            (record_failure-IsValid c now reason v) s') [
              | inl o ↦ inl o
              | inr (w, s'', e) ↦ inr (w, s'', e ∙ same)
            ]
    ]

streak→opened :
    (os : List Outcome) (c : CircuitBreaker)
    → IsValid c
    → c.state ≡ closed
    → HasStreak c.failure_threshold os
    → (record_outcomes c os).state ≡ opened
streak→opened os c v s (pre, block, post, e, f, n) =
    rw (e, record_outcomes-append, record_outcomes-append)
      (record_outcomes_opened _ post (elim (closed-record_outcomes pre c v s) [
        | inl o ↦ record_outcomes_opened _ block o
        | inr (w, s', same) ↦ failures_open block _ w s' f (omega arith)
      ]))

-- A valid closed breaker with no failure counted ends open, after any outcomes, exactly when
-- `failureThreshold` failures stand in a row among them.
pub trips_iff :
    (c : CircuitBreaker) (os : List Outcome)
    → IsValid c
    → c.state ≡ closed
    → c.consecutive_failures ≡ 0
    → ((record_outcomes c os).state ≡ opened) ↔ HasStreak c.failure_threshold os
trips_iff c os v s z = (to, streak→opened os c v s)
  where
    to : (record_outcomes c os).state ≡ opened → HasStreak c.failure_threshold os
    to h = elim (opened→streak os c _ 0 v s z refl h) [
      | inl (block, post, e, f, n) ↦ ([], block, post, e, f, omega arith)
      | inr found ↦ found
    ]
