-- ===== src/Concurrency/Interleaving.antt =====
-- Requests that share one limiter, in any interleaving of their arrivals and ends.
use go_mini_gateway.Common.{
  ℕ, ◌+◌, ◌-◌, ◌≤◌, ◌<◌, ◌≡◌, ◌↔◌, refl, pos, Text, true, false, Option, some, arith,
}
use go_mini_gateway.Concurrency.Limiter.{Limiter, new_limiter, try_acquire, release, snapshot}

-- A limiter, and the number of requests between their `TryAcquire` and their `Release`.
pub record World : Type 0 where
  pub limiter : Option Limiter
  pub inside : ℕ

pub data Step (w : World) : World → Type 0 where
  enter :
      (try_acquire w.limiter).1 ≡ true
      → Step w (record { limiter = (try_acquire w.limiter).0; inside = w.inside + 1 })
  refuse :
      (try_acquire w.limiter).1 ≡ false
      → Step w (record { limiter = (try_acquire w.limiter).0; inside = w.inside })
  leave : 0 < w.inside → Step w (record { limiter = release w.limiter; inside = w.inside - 1 })

pub data Reach (s : World) : World → Type 0 where
  here : Reach s s
  next : {t u : World} → Reach s t → Step t u → Reach s u

-- The limiter is there, keeps its capacity, and counts the requests inside.
abbrev Counts : ℕ → World → Type 0
Counts n w =
    (l : Limiter) × (w.limiter ≡ some l)
    × (l.capacity ≡ n)
    × (l.semaphore ≡ w.inside)
    × (w.inside ≤ n)

Step-Counts : {n : ℕ} {w u : World} → Step w u → Counts n w → Counts n u
unfolding try_acquire release
Step-Counts (enter ok) (l, e, cap, count, le) =
    (record l { semaphore = l.semaphore + 1 }, ground arith, cap, ground arith, ground arith)
Step-Counts (refuse no_room) (l, e, cap, count, le) = (l, ground arith, cap, count, le)
Step-Counts (leave some_inside) (l, e, cap, count, le) =
    (record l { semaphore = l.semaphore - 1 }, ground arith, cap, ground arith, ground arith)

Reach-Counts : {n : ℕ} {s w : World} → Counts n s → Reach s w → Counts n w
Reach-Counts h here = h
Reach-Counts h (next r st) = Step-Counts st (Reach-Counts h r)

start-Counts :
    (name : Text) (n : ℕ)
    → 0 < n
    → Counts n (record { limiter = new_limiter name (pos n); inside = 0 })
unfolding new_limiter
start-Counts name n h =
    (record { name = name; capacity = n; semaphore = 0 }, ground arith, refl, refl, omega arith)

-- A limiter built for `n` requests, in any interleaving: never more than `n` are inside, the snapshot
-- counts exactly those inside and the places that are left, and a request is refused exactly when `n`
-- are inside.
pub inside_bounded :
    (name : Text) (n : ℕ) (w : World)
    → 0 < n
    → Reach (record { limiter = new_limiter name (pos n); inside = 0 }) w
    → (w.inside ≤ n)
      × ((snapshot w.limiter).in_use ≡ w.inside)
      × ((snapshot w.limiter).available ≡ pos (n - w.inside))
      × (((try_acquire w.limiter).1 ≡ false) ↔ (w.inside ≡ n))
unfolding snapshot try_acquire
inside_bounded name n w h r =
    let (l, e, cap, count, le) = Reach-Counts (start-Counts name n h) r in
    (le, ground arith, ground arith, ground arith)
