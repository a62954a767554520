-- ===== src/Proxy/Passive/Laws.antt =====
-- When passive health takes an upstream out of the selection, for how long, and when it comes back.
use go_mini_gateway.Common.{
  ℕ, ◌+◌, ◌*◌, ◌≤◌, ◌<◌, ◌≡◌, ◌⊎◌, ◌↔◌, inl, inr, refl, ap, ◌∙◌, Text, Time, second, List, [], ◌∷◌,
  ◌++◌, arith, length, All, true, false, some, or_default_pos,
}
use go_mini_gateway.Proxy.Outcome.{Outcome, success, failure, IsFailure}
use go_mini_gateway.Proxy.Passive.{
  PassiveHealth, PassiveHealthOptions, new_passive_health_state, available, record_success,
  record_failure, snapshot,
}

pub record IsValid (s : PassiveHealth) : Type 0 where
  pub failures_pos : 0 < s.failure_threshold
  pub successes_pos : 0 < s.success_threshold
  pub duration_pos : 0 < s.unhealthy_duration
  pub healthy_counts :
      s.unhealthy ≡ false
      → (s.consecutive_failures < s.failure_threshold) × (s.consecutive_successes ≡ 0)
  pub unhealthy_counts : s.unhealthy ≡ true → s.consecutive_successes < s.success_threshold

pub new-IsValid :
    (route_id upstream_id : Text) (o : PassiveHealthOptions) {s : PassiveHealth}
    → new_passive_health_state route_id upstream_id o ≡ some s
    → IsValid s
unfolding new_passive_health_state
new-IsValid route_id upstream_id o h = ground (
  arith,
  or_default_pos o.failure_threshold 3 (omega arith),
  or_default_pos o.success_threshold 1 (omega arith),
  or_default_pos o.unhealthy_duration (10 * second) (omega arith),
)

unfoldable pub record_outcome : PassiveHealth → Outcome → PassiveHealth
record_outcome s (success now) = record_success s now
record_outcome s (failure now reason) = record_failure s now reason

unfoldable pub record_outcomes : PassiveHealth → List Outcome → PassiveHealth
unfolding record_outcome
record_outcomes s [] = s
record_outcomes s (o ∷ os) = record_outcomes (record_outcome s o) os

record_outcome-IsValid :
    (s : PassiveHealth) (o : Outcome) → IsValid s → IsValid (record_outcome s o)
unfolding record_outcome record_success record_failure
record_outcome-IsValid s (success now) v = ground arith
record_outcome-IsValid s (failure now reason) v = ground arith

record_outcomes-IsValid :
    (os : List Outcome) (s : PassiveHealth) → IsValid s → IsValid (record_outcomes s os)
unfolding record_outcomes
record_outcomes-IsValid [] s v = v
record_outcomes-IsValid (o ∷ os) s v =
    record_outcomes-IsValid os (record_outcome s o) (record_outcome-IsValid s o v)

record_outcomes-append :
    (s : PassiveHealth) (xs ys : List Outcome)
    → record_outcomes s (xs ++ ys) ≡ record_outcomes (record_outcomes s xs) ys
unfolding record_outcomes
record_outcomes-append s [] ys = refl
record_outcomes-append s (x ∷ xs) ys = record_outcomes-append (record_outcome s x) xs ys

-- A state built from any options is valid after any outcomes: the limits are positive; healthy, the
-- failures in a row are below their threshold; unhealthy, the successes in a row are.
new-record_outcomes-IsValid :
    (route_id upstream_id : Text) (o : PassiveHealthOptions) (os : List Outcome) {s : PassiveHealth}
    → new_passive_health_state route_id upstream_id o ≡ some s
    → IsValid (record_outcomes s os)
new-record_outcomes-IsValid route_id upstream_id o os {s} h =
    record_outcomes-IsValid os s (new-IsValid route_id upstream_id o h)

record_failures-counts :
    (block : List Outcome) (s : PassiveHealth)
    → All IsFailure block
    → let d = record_outcomes s block in
      (d.consecutive_failures ≡ s.consecutive_failures + length block)
      × (d.failure_threshold ≡ s.failure_threshold)
      × (d.unhealthy_duration ≡ s.unhealthy_duration)
unfolding record_outcomes record_failure
record_failures-counts [] s f = ground arith
record_failures-counts (success now ∷ block) s (f, _) = absurd f
record_failures-counts (failure now reason ∷ block) s (_, fs) =
    ground (arith, record_failures-counts block (record_failure s now reason) fs)

last_failure_marks :
    (s : PassiveHealth) (now : Time) (reason : Text)
    → s.failure_threshold ≤ s.consecutive_failures + 1
    → let d = record_failure s now reason in
      (d.unhealthy ≡ true) × (d.retry_after ≡ now + s.unhealthy_duration)
unfolding record_failure
last_failure_marks s now reason h = ground arith

available_marked :
    (s : PassiveHealth) (later until : Time)
    → s.unhealthy ≡ true
    → s.retry_after ≡ until
    → (available s later ≡ false) ↔ (later < until)
unfolding available
available_marked s later until u r = ground arith

-- Whatever the state was before, once `failureThreshold` outcomes in a row are failures, the last of
-- them at `now`, the upstream is unavailable exactly until `now + unhealthyDuration`.
streak-unavailable_iff :
    (s : PassiveHealth) (block : List Outcome) (now later : Time) (reason : Text)
    → All IsFailure block
    → s.failure_threshold ≤ length block + 1
    → (available (record_outcomes s (block ++ failure now reason ∷ [])) later ≡ false)
      ↔ (later < now + s.unhealthy_duration)
unfolding record_outcomes
streak-unavailable_iff s block now later reason f n =
    let (count, same, length_same) = record_failures-counts block s f in
    let (marked, until) = last_failure_marks (record_outcomes s block) now reason (omega arith) in
    rw (record_outcomes-append s block (failure now reason ∷ [])) (
      available_marked _ later (now + s.unhealthy_duration) marked
        (until ∙ ap (λ d. now + d) length_same))

abbrev pub IsSuccess : Outcome → Type 0
IsSuccess (success _) = Unit
IsSuccess (failure _ _) = ⊥

healthy-record_successes :
    (os : List Outcome) (s : PassiveHealth)
    → All IsSuccess os
    → s.unhealthy ≡ false
    → (record_outcomes s os).unhealthy ≡ false
unfolding record_outcomes record_success
healthy-record_successes [] s f h = h
healthy-record_successes (failure now reason ∷ os) s (f, _) h = absurd f
healthy-record_successes (success now ∷ os) s (_, fs) h =
    healthy-record_successes os (record_success s now) fs (ground arith)

unhealthy-record_success :
    (s : PassiveHealth) (now : Time)
    → s.unhealthy ≡ true
    → let d = record_success s now in
      ((s.success_threshold ≤ s.consecutive_successes + 1) × (d.unhealthy ≡ false))
      ⊎ ((s.consecutive_successes + 1 < s.success_threshold)
          × (d.unhealthy ≡ true)
          × (d.consecutive_successes ≡ s.consecutive_successes + 1)
          × (d.success_threshold ≡ s.success_threshold))
unfolding record_success
unhealthy-record_success s now h = ground arith

-- An unhealthy upstream recovers by successes in a row exactly when they take the counter to
-- `successThreshold`.
recovers_iff :
    (os : List Outcome) (s : PassiveHealth)
    → IsValid s
    → s.unhealthy ≡ true
    → All IsSuccess os
    → ((record_outcomes s os).unhealthy ≡ false)
      ↔ (s.success_threshold ≤ s.consecutive_successes + length os)
unfolding record_outcomes
recovers_iff [] s v u f = (λ h. cc, λ h. absurd (ground (arith, v.unhealthy_counts u)))
recovers_iff (failure now reason ∷ os) s v u (f, _) = absurd f
recovers_iff (success now ∷ os) s v u (_, fs) = elim (unhealthy-record_success s now u) [
  | inl (full, well) ↦
      (λ _. omega arith, λ _. healthy-record_successes os (record_success s now) fs well)
  | inr (more, still, count, same) ↦
      let (to, from) =
        recovers_iff os (record_success s now) (record_outcome-IsValid s (success now) v) still
          fs in
      (λ h. let n = to h in omega arith, λ h. from (omega arith))
]

-- The snapshot agrees with what the selection is told.
pub snapshot-available :
    (format : Time → Text) (duration_string : ℕ → Text) (s : PassiveHealth) (now : Time)
    → (snapshot format duration_string s now).available ≡ available s now
unfolding snapshot available
snapshot-available format duration_string s now = ground arith
