-- ===== src/Proxy/Upstream.antt =====
-- internal/proxy/upstream.go: what one upstream answers and records, and the selection of an upstream
-- for a request. `time.Now()` is an argument; the loop of the selection asks the clock in each round.
pub mod Acquire
pub mod Admits
pub mod Rounds
pub mod Select
mod Refusals
pub mod Fair
pub mod Kept
mod Examples
use go_mini_gateway.Common.{
  ℕ, zero, suc, ◌+◌, ◌-◌, ◌%◌, ◌^◌, Text, Time, Bool, true, false, not, ◌&&◌, Option, none, some,
  List, [], ◌∷◌, length, get_elem?, set, if◌then◌else◌, ◌==◌,
}
use go_mini_gateway.Url.{Url}
use go_mini_gateway.Health.Checker.{Checker}
use go_mini_gateway.Health.Checker
use go_mini_gateway.Proxy.Passive.{PassiveHealth}
use go_mini_gateway.Proxy.Passive
use go_mini_gateway.Proxy.Breaker.{CircuitBreaker}
use go_mini_gateway.Proxy.Breaker

pub record Upstream : Type 0 where
  pub id : Text
  pub url : Url
  pub active_health : Option Checker
  pub passive_health : Option PassiveHealth
  pub circuit_breaker : Option CircuitBreaker

-- Of the handler, what the selection reads and writes; `next_index` is a uint64.
pub record Handler : Type 0 where
  pub route_id : Text
  pub strip_prefix : Text
  pub upstreams : List Upstream
  pub next_index : ℕ

passive_ok : Option PassiveHealth → Time → Bool
passive_ok none now = true
passive_ok (some s) now = Passive.available s now

ask_breaker : Upstream → Option CircuitBreaker → Time → Upstream × Bool
ask_breaker u none now = (u, true)
ask_breaker u (some c) now =
    let (c', ok) = Breaker.allow c now in (record u { circuit_breaker = some c' }, ok)

-- The breaker is asked last, so that a request that another check refuses takes no half-open slot.
unfoldable pub try_acquire : Upstream → Time → Upstream × Bool
unfolding passive_ok ask_breaker
try_acquire u now =
    if not (Checker.available u.active_health)
    then (u, false)
    else if not (passive_ok u.passive_health now)
    then (u, false)
    else ask_breaker u u.circuit_breaker now

abbrev map_option : {A : Type 0} → (A → A) → Option A → Option A
map_option f none = none
map_option f (some a) = some (f a)

unfoldable pub record_success : Upstream → Time → Upstream
record_success u now = record u {
  passive_health = map_option (λ s. Passive.record_success s now) u.passive_health;
  circuit_breaker = map_option (λ c. Breaker.record_success c now) u.circuit_breaker;
}

unfoldable pub record_failure : Upstream → Time → Text → Upstream
record_failure u now reason = record u {
  passive_health = map_option (λ s. Passive.record_failure s now reason) u.passive_health;
  circuit_breaker = map_option (λ c. Breaker.record_failure c now reason) u.circuit_breaker;
}

abbrev pub u64 : ℕ
u64 = 2 ^ 64

-- `int((start + uint64(i)) % uint64(count))`; the sum wraps.
unfoldable pub index_of : ℕ → ℕ → ℕ → ℕ
index_of start count i = (start + i) % u64 % count

-- One round of the loop: the candidate is asked, and the rest of the loop runs if it refuses.
abbrev offer :
    List Upstream
    → ℕ
    → Upstream × Bool
    → (List Upstream → List Upstream × Option ℕ)
    → List Upstream × Option ℕ
offer us index (u, true) rest = (set us index u, some index)
offer us index (u, false) rest = rest (set us index u)

abbrev candidate :
    List Upstream
    → ℕ
    → Time
    → Option Upstream
    → (List Upstream → List Upstream × Option ℕ)
    → List Upstream × Option ℕ
candidate us index now none rest = (us, none)
candidate us index now (some u) rest = offer us index (try_acquire u now) rest

-- The loop over `i`, with the rounds left. The index is in range, so a candidate is always found.
unfoldable pub select_from : (ℕ → Time) → ℕ → ℕ → ℕ → ℕ → List Upstream → List Upstream × Option ℕ
select_from clock start count zero i us = (us, none)
select_from clock start count (suc rounds) i us =
    let index = index_of start count i in
    candidate us index (clock i) (get_elem? us index) (select_from clock start count rounds (i + 1))

-- The selected upstream is given by its index.
unfoldable pub select_upstream : Handler → (ℕ → Time) → Handler × Option ℕ
select_upstream h clock =
    let count = length h.upstreams in
    if count == 0
    then (h, none)
    else let next = (h.next_index + 1) % u64 in
      let start = (next + u64 - 1) % u64 in
      let (us, chosen) = select_from clock start count count 0 h.upstreams in
      (record h { upstreams = us; next_index = next }, chosen)
