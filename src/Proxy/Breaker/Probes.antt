-- ===== src/Proxy/Breaker/Probes.antt =====
-- The requests behind the half-open counters: which of those in flight are probes of the present
-- half-open period, and what completions of older requests do to the counters.
use go_mini_gateway.Common.{ℕ, ◌+◌, ◌-◌, ◌≤◌, ◌<◌, ◌≡◌, Time, arith, true, false}
use go_mini_gateway.Proxy.Breaker.{
  closed, opened, half_open, CircuitBreaker, allow, record_success, record_failure,
}
use go_mini_gateway.Proxy.Outcome.{Outcome, success}
use go_mini_gateway.Proxy.Breaker.Trip.{record_outcome}

-- A breaker with the requests that it let through and that are not completed: `probes` were admitted
-- in the present half-open period, or the last one, and `old` before it. `stale` counts the
-- completions of old requests since that period began.
pub record World : Type 0 where
  pub breaker : CircuitBreaker
  pub probes : ℕ
  pub old : ℕ
  pub stale : ℕ

pub data Step (w : World) : World → Type 0 where
  refuse :
      (now : Time)
      → (allow w.breaker now).1 ≡ false
      → Step w (record w { breaker = (allow w.breaker now).0 })
  pass :
      (now : Time)
      → w.breaker.state ≡ closed
      → Step w (record w { breaker = (allow w.breaker now).0; old = w.old + 1 })
  enter :
      (now : Time)
      → w.breaker.state ≡ opened
      → (allow w.breaker now).1 ≡ true
      → Step w (record {
        breaker = (allow w.breaker now).0;
        probes = 1;
        old = w.old + w.probes;
        stale = 0;
      })
  probe :
      (now : Time)
      → w.breaker.state ≡ half_open
      → (allow w.breaker now).1 ≡ true
      → Step w (record w { breaker = (allow w.breaker now).0; probes = w.probes + 1 })
  finish_probe :
      (o : Outcome)
      → 0 < w.probes
      → Step w (record w { breaker = record_outcome w.breaker o; probes = w.probes - 1 })
  finish_old :
      (o : Outcome)
      → 0 < w.old
      → Step w
          (record w { breaker = record_outcome w.breaker o; old = w.old - 1; stale = w.stale + 1 })

pub data Reach (s : World) : World → Type 0 where
  here : Reach s s
  next : {t u : World} → Reach s t → Step t u → Reach s u

-- Half-open, the counter lies between the probes in flight, less the stale completions, and the
-- probes in flight.
pub record Counted (w : World) : Type 0 where
  pub max_pos : 0 < w.breaker.half_open_max_requests
  pub counted :
      w.breaker.state ≡ half_open
      → (w.breaker.half_open_in_flight ≤ w.probes)
        × (w.probes ≤ w.breaker.half_open_in_flight + w.stale)
        × (w.breaker.half_open_in_flight ≤ w.breaker.half_open_max_requests)

Step-Counted : {w u : World} → Step w u → Counted w → Counted u
unfolding allow record_outcome record_success record_failure
Step-Counted (refuse now h) i = ground arith
Step-Counted (pass now h) i = ground arith
Step-Counted (enter now s h) i = ground arith
Step-Counted (probe now s h) i = ground arith
Step-Counted (finish_probe o h) i = ground arith
Step-Counted (finish_old o h) i = ground arith

Reach-Counted : {s w : World} → Counted s → Reach s w → Counted w
Reach-Counted i here = i
Reach-Counted i (next r st) = Step-Counted st (Reach-Counted i r)

-- A closed breaker with any number of requests in flight.
abbrev pub start : CircuitBreaker → ℕ → World
start c n = record { breaker = c; probes = 0; old = n; stale = 0 }

start-Counted :
    (c : CircuitBreaker) (n : ℕ)
    → c.state ≡ closed
    → 0 < c.half_open_max_requests
    → Counted (start c n)
start-Counted c n s pos = record { max_pos = pos; counted = λ h. absurd (ground arith) }

-- From a closed breaker with any requests in flight, whatever the order of requests and completions:
-- in the half-open state the probes in flight are at most `halfOpenMaxRequests`, and one more for each
-- request from before the half-open period that completed during it.
pub probes_bounded :
    (c : CircuitBreaker) (n : ℕ) (w : World)
    → c.state ≡ closed
    → 0 < c.half_open_max_requests
    → Reach (start c n) w
    → w.breaker.state ≡ half_open
    → w.probes ≤ w.breaker.half_open_max_requests + w.stale
probes_bounded c n w s pos r h =
    let (_, upper, full) = (Reach-Counted (start-Counted c n s pos) r).counted h in omega arith

-- No slot is lost: half-open with fewer than `halfOpenMaxRequests` probes in flight, the breaker admits
-- the next request.
slot_free :
    (c : CircuitBreaker) (n : ℕ) (w : World) (now : Time)
    → c.state ≡ closed
    → 0 < c.half_open_max_requests
    → Reach (start c n) w
    → w.breaker.state ≡ half_open
    → w.probes < w.breaker.half_open_max_requests
    → (allow w.breaker now).1 ≡ true
unfolding allow
slot_free c n w now s pos r h few =
    let (lower, _, _) = (Reach-Counted (start-Counted c n s pos) r).counted h in ground arith

-- The bound on the probes is not `halfOpenMaxRequests` alone: with the probes at that number, the
-- success of an older request frees a slot, unless it closes the breaker, and one more is admitted.
pub old_success_overruns :
    (w : World) (done now : Time)
    → w.breaker.state ≡ half_open
    → w.breaker.half_open_in_flight ≡ w.breaker.half_open_max_requests
    → w.probes ≡ w.breaker.half_open_max_requests
    → w.breaker.half_open_successes + 1 < w.breaker.half_open_max_requests
    → 0 < w.old
    → (u : World) × Reach w u
      × (u.breaker.state ≡ half_open)
      × (u.probes ≡ u.breaker.half_open_max_requests + 1)
unfolding allow record_outcome record_success
old_success_overruns w done now s full busy room some_old =
    let freed = record_success w.breaker done in
    let u : World = record w {
      breaker = (allow freed now).0;
      probes = w.probes + 1;
      old = w.old - 1;
      stale = w.stale + 1;
    } in
    (
      u,
      next (next here (finish_old (success done) some_old))
          (probe now (ground arith) (ground arith)),
      ground arith,
      ground arith,
    )
