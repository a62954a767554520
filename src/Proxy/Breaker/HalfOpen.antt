-- ===== src/Proxy/Breaker/HalfOpen.antt =====
-- An open breaker until and after its next attempt: what `allow` admits, how it closes again.
use go_mini_gateway.Common.{
  ℕ, suc, ◌+◌, ◌-◌, ◌≤◌, ◌<◌, ◌≡◌, ◌⊎◌, ◌↔◌, inl, inr, refl, Text, Time, List, [], ◌∷◌, arith,
  length, All, true, false, if◌then◌else◌, min,
}
use go_mini_gateway.Proxy.Breaker.{
  closed, opened, half_open, CircuitBreaker, allow, record_success, record_failure, snapshot,
}
use go_mini_gateway.Proxy.Breaker.Invariant.{IsValid}

-- Calls of `allow` with no completion between them: the breaker after them, and how many returned true.
unfoldable pub allow_all : CircuitBreaker → List Time → CircuitBreaker × ℕ
allow_all c [] = (c, 0)
allow_all c (now ∷ ts) =
    let (d, ok) = allow c now in let (e, n) = allow_all d ts in (e, if ok then suc n else n)

-- Before `nextAttemptAt` an open breaker rejects every request, and no rejection changes it.
opened_rejects :
    (c : CircuitBreaker) (ts : List Time)
    → c.state ≡ opened
    → All (λ now. now < c.next_attempt_at) ts
    → allow_all c ts ≡ (c, 0)
unfolding allow_all allow
opened_rejects c [] s h = refl
opened_rejects c (now ∷ ts) s (h, hs) = ground (arith, opened_rejects c ts s hs)

half_open_admits :
    (ts : List Time) (c : CircuitBreaker)
    → c.state ≡ half_open
    → c.half_open_in_flight ≤ c.half_open_max_requests
    → (allow_all c ts).1 ≡ min (length ts) (c.half_open_max_requests - c.half_open_in_flight)
unfolding allow_all allow
half_open_admits [] c s h = omega arith
half_open_admits (now ∷ ts) c s h = ground (
  arith,
  half_open_admits ts c s h,
  half_open_admits ts (record c { half_open_in_flight = c.half_open_in_flight + 1 }) s,
)

-- The first request from `nextAttemptAt` on is admitted as the first probe.
opened-allow :
    (c : CircuitBreaker) (now : Time)
    → IsValid c
    → c.state ≡ opened
    → c.next_attempt_at ≤ now
    → let (d, ok) = allow c now in
      (ok ≡ true)
      × (d.state ≡ half_open)
      × (d.half_open_in_flight ≡ 1)
      × (d.half_open_successes ≡ 0)
      × (d.half_open_max_requests ≡ c.half_open_max_requests)
unfolding allow
opened-allow c now v s h = ground arith

-- From its next attempt on, an open breaker admits, of any number of requests that come before the
-- first completion, exactly the first `halfOpenMaxRequests`: the number of admitted requests is the
-- minimum of that bound and the number of requests.
pub opened_admits :
    (c : CircuitBreaker) (ts : List Time)
    → IsValid c
    → c.state ≡ opened
    → All (λ now. c.next_attempt_at ≤ now) ts
    → (allow_all c ts).1 ≡ min (length ts) c.half_open_max_requests
unfolding allow_all
opened_admits c [] v s h = omega arith
opened_admits c (now ∷ ts) v s (h, _) =
    let (ok, s', one, _, same) = opened-allow c now v s h in
    let rest = half_open_admits ts (allow c now).0 s' (ground arith) in rw ok (ground arith)

-- A request that is admitted and succeeds before the next one comes.
pub probe_success : CircuitBreaker → Time → CircuitBreaker
probe_success c now = record_success (allow c now).0 now

pub probe_successes : CircuitBreaker → List Time → CircuitBreaker
unfolding probe_success
probe_successes c [] = c
probe_successes c (now ∷ ts) = probe_successes (probe_success c now) ts

closed-probe_success :
    (c : CircuitBreaker) (now : Time) → c.state ≡ closed → (probe_success c now).state ≡ closed
unfolding probe_success allow record_success
closed-probe_success c now s = ground arith

closed-probe_successes :
    (c : CircuitBreaker) (ts : List Time) → c.state ≡ closed → (probe_successes c ts).state ≡ closed
unfolding probe_successes
closed-probe_successes c [] s = s
closed-probe_successes c (now ∷ ts) s =
    closed-probe_successes (probe_success c now) ts (closed-probe_success c now s)

-- A half-open breaker between two probes.
abbrev Between : CircuitBreaker → ℕ → ℕ → Type 0
Between c max k =
    (c.state ≡ half_open)
    × (c.half_open_in_flight ≡ 0)
    × (c.half_open_successes ≡ k)
    × (c.half_open_max_requests ≡ max)

half_open-probe_success :
    (c : CircuitBreaker) (now : Time) (max k : ℕ)
    → 0 < max
    → Between c max k
    → ((max ≤ k + 1) × ((probe_success c now).state ≡ closed))
      ⊎ ((k + 1 < max) × Between (probe_success c now) max (k + 1))
unfolding probe_success allow record_success
half_open-probe_success c now max k pos b = ground arith

half_open_recovers :
    (ts : List Time) (c : CircuitBreaker) (max k : ℕ)
    → k < max
    → Between c max k
    → ((probe_successes c ts).state ≡ closed) ↔ (max ≤ k + length ts)
unfolding probe_successes
half_open_recovers [] c max k lt b = (λ h. cc, λ h. absurd (omega arith))
half_open_recovers (now ∷ ts) c max k lt b =
    elim (half_open-probe_success c now max k (omega arith) b) [
      | inl (full, s) ↦ (λ _. omega arith, λ _. closed-probe_successes (probe_success c now) ts s)
      | inr (more, b') ↦
          let (to, from) = half_open_recovers ts (probe_success c now) max (k + 1) more b' in
          (λ h. let n = to h in omega arith, λ h. from (omega arith))
    ]

opened-probe_success :
    (c : CircuitBreaker) (now : Time)
    → IsValid c
    → c.state ≡ opened
    → c.next_attempt_at ≤ now
    → ((c.half_open_max_requests ≤ 1) × ((probe_success c now).state ≡ closed))
      ⊎ ((1 < c.half_open_max_requests) × Between (probe_success c now) c.half_open_max_requests 1)
unfolding probe_success allow record_success
opened-probe_success c now v s h = ground arith

-- Probes that come one after another, from the next attempt on, and all succeed, close an open
-- breaker exactly when there are at least `halfOpenMaxRequests` of them.
pub opened_recovers_iff :
    (c : CircuitBreaker) (ts : List Time)
    → IsValid c
    → c.state ≡ opened
    → All (λ now. c.next_attempt_at ≤ now) ts
    → ((probe_successes c ts).state ≡ closed) ↔ (c.half_open_max_requests ≤ length ts)
unfolding probe_successes
opened_recovers_iff c [] v s h = (λ e. cc, λ n. absurd (omega (arith, v.max_pos)))
opened_recovers_iff c (now ∷ ts) v s (h, _) = elim (opened-probe_success c now v s h) [
  | inl (full, s') ↦ (λ _. omega arith, λ _. closed-probe_successes (probe_success c now) ts s')
  | inr (more, b) ↦
      let (to, from) =
        half_open_recovers ts (probe_success c now) c.half_open_max_requests 1 more b in
      (λ e. let n = to e in omega arith, λ n. from (omega arith))
]

-- One failing probe opens the breaker again for the whole `openDuration`.
half_open-record_failure :
    (c : CircuitBreaker) (now later : Time) (reason : Text)
    → c.state ≡ half_open
    → later < now + c.open_duration
    → let d = record_failure c now reason in
      (d.state ≡ opened) × ((allow d later).1 ≡ false) × ((allow d later).0 ≡ d)
unfolding record_failure allow
half_open-record_failure c now later reason s h = ground arith

-- The `available` of the admin snapshot is what `allow` answers at the same time.
snapshot-allow :
    (format : Time → Text) (duration_string : ℕ → Text) (c : CircuitBreaker) (now : Time)
    → IsValid c
    → (snapshot format duration_string c now).available ≡ (allow c now).1
unfolding snapshot allow
snapshot-allow format duration_string c now v = ground arith
