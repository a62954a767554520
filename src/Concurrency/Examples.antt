-- ===== src/Concurrency/Examples.antt =====
-- The theorems on the concurrency limit at limiters of one and two places.
use go_mini_gateway.Common.{ℕ, ◌-◌, ◌≤◌, ◌≡◌, ◌↔◌, refl, pos, false, Option, some, codes, arith}
use go_mini_gateway.Http.{panicked, Handler, Cell}
use go_mini_gateway.Concurrency.Limiter.{Limiter, new_limiter, try_acquire, snapshot}
use go_mini_gateway.Concurrency.Interleaving.{World, enter, Reach, here, next, inside_bounded}

abbrev limiter : ℕ → Limiter
limiter n = record { name = codes "api"; capacity = 2; semaphore = n }

abbrev one_inside : World
one_inside = record { limiter = some (limiter 1); inside = 1 }

one_inside_reached :
    Reach (record { limiter = new_limiter (codes "api") (pos 2); inside = 0 }) one_inside
unfolding new_limiter try_acquire
one_inside_reached = next here (enter refl)

inside_bounded_example :
    (1 ≤ 2)
    × ((snapshot one_inside.limiter).in_use ≡ 1)
    × ((snapshot one_inside.limiter).available ≡ pos (2 - 1))
    × (((try_acquire one_inside.limiter).1 ≡ false) ↔ (one_inside.inside ≡ 2))
inside_bounded_example = inside_bounded (codes "api") 2 one_inside (omega arith) one_inside_reached

-- A process whose state is the limiter.
abbrev whole : Cell (Option Limiter) (Option Limiter)
whole = record { get = λ l. l; put = λ l _. l; get-put = λ l _. refl }

-- An inner handler that panics.
abbrev failing : Handler Unit (Option Limiter)
failing _ l = (panicked, l)
