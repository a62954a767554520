-- ===== src/Concurrency/Limiter.antt =====
-- internal/concurrency/limiter.go. The channel `semaphore` is its number of elements; its places are
-- `capacity`. A nil limiter is `none`.
use go_mini_gateway.Common.{
  ℕ, ◌+◌, ◌-◌, ℤ, pos, pos_part, sub_ℕ, leb_ℤ, ltb, Bool, true, false, Option, none, some, [], Text,
  if◌then◌else◌,
}

pub record Limiter : Type 0 where
  pub name : Text
  pub capacity : ℕ
  pub semaphore : ℕ

unfoldable pub new_limiter : Text → ℤ → Option Limiter
new_limiter name max_concurrency =
    if leb_ℤ max_concurrency (pos 0)
    then none
    else some (record { name = name; capacity = pos_part max_concurrency; semaphore = 0 })

-- A send that does not block succeeds when the channel has a free place.
try_acquire_some : Limiter → Limiter × Bool
try_acquire_some l =
    if ltb l.semaphore l.capacity
    then (record l { semaphore = l.semaphore + 1 }, true)
    else (l, false)

unfoldable pub try_acquire : Option Limiter → Option Limiter × Bool
unfolding try_acquire_some
try_acquire none = (none, true)
try_acquire (some l) = let (l', ok) = try_acquire_some l in (some l', ok)

-- A receive that does not block takes an element, if there is one.
unfoldable pub release : Option Limiter → Option Limiter
release none = none
release (some l) =
    if ltb 0 l.semaphore then some (record l { semaphore = l.semaphore - 1 }) else some l

unfoldable pub in_use : Option Limiter → ℕ
in_use none = 0
in_use (some l) = l.semaphore

unfoldable pub capacity : Option Limiter → ℕ
capacity none = 0
capacity (some l) = l.capacity

unfoldable pub name : Option Limiter → Text
name none = []
name (some l) = l.name

pub record Snapshot : Type 0 where
  pub name : Text
  pub capacity : ℕ
  pub in_use : ℕ
  pub available : ℤ

-- `l.Capacity() - inUse`, which is negative if more is in use than there are places.
unfoldable pub snapshot : Option Limiter → Snapshot
unfolding name capacity
snapshot none = record { name = []; capacity = 0; in_use = 0; available = pos 0 }
snapshot (some l) = record {
  name = name (some l);
  capacity = capacity (some l);
  in_use = l.semaphore;
  available = sub_ℕ (capacity (some l)) l.semaphore;
}
