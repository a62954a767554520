-- ===== src/Proxy/Upstream/Rounds.antt =====
-- The order in which the loop of the selection visits the upstreams.
use native.Mathlib.Decide.{dec_lt}
use native.Mathlib.Nat.{mod-eq_of_lt, mod-eq-sub-mod, mod-add-mod, mod-lt}
use go_mini_gateway.Common.{ℕ, ◌+◌, ◌-◌, ◌%◌, ◌≤◌, ◌<◌, ◌≡◌, arith, ◌∙◌, sym}
use go_mini_gateway.Proxy.Upstream.{u64, index_of}

-- The round in which the upstream `j` is visited.
abbrev pub round_of : ℕ → ℕ → ℕ → ℕ
round_of start count j = (j + count - start % count) % count

pub index_of-lt : (start count i : ℕ) → 0 < count → index_of start count i < count
unfolding index_of
index_of-lt start count i h = omega arith

pub round_of-lt : (start count j : ℕ) → 0 < count → round_of start count j < count
round_of-lt start count j h = omega arith

mod-below : (x n : ℕ) → x < n → x % n ≡ x
mod-below x n h = mod-eq_of_lt h

mod-above : (x n : ℕ) → n ≤ x → x < n + n → x % n ≡ x - n
mod-above x n h k = mod-eq-sub-mod h ∙ mod-eq_of_lt (omega arith)

-- Without a wrap of the sum, the round `i` visits the place `i` behind the first one, around the list.
pub index_of_lem :
    (start count i : ℕ)
    → start + count ≤ u64
    → i < count
    → index_of start count i ≡ (start % count + i) % count
unfolding index_of
index_of_lem start count i fits h =
    rw (mod-below (start + i) u64 (omega arith)) (sym (mod-add-mod start count i))

around : (r n j : ℕ) → r < n → j < n → (r + (j + n - r) % n) % n ≡ j
around r n j h k = elim (dec_lt j r) [
  | yes p ↦
      rw (mod-below (j + n - r) n (omega arith))
        (rw (mod-above (r + (j + n - r)) n (omega arith) (omega arith)) (omega arith))
  | no p ↦
      rw (mod-above (j + n - r) n (omega arith) (omega arith))
        (rw (mod-below (r + (j + n - r - n)) n (omega arith)) (omega arith))
]

pub index_of-round_of :
    (start count j : ℕ)
    → start + count ≤ u64
    → j < count
    → index_of start count (round_of start count j) ≡ j
index_of-round_of start count j fits h =
    rw
      (index_of_lem start count (round_of start count j) fits
        (round_of-lt start count j (omega arith)))
      (around (start % count) count j (mod-lt start (omega arith)) h)

back : (r n i : ℕ) → r < n → i < n → ((r + i) % n + n - r) % n ≡ i
back r n i h k = elim (dec_lt (r + i) n) [
  | yes p ↦
      rw (mod-below (r + i) n p)
        (rw (mod-above (r + i + n - r) n (omega arith) (omega arith)) (omega arith))
  | no p ↦
      rw (mod-above (r + i) n (omega arith) (omega arith))
        (rw (mod-below (r + i - n + n - r) n (omega arith)) (omega arith))
]

pub round_of-index_of :
    (start count i : ℕ)
    → start + count ≤ u64
    → i < count
    → round_of start count (index_of start count i) ≡ i
round_of-index_of start count i fits h =
    rw (index_of_lem start count i fits h)
      (back (start % count) count i (mod-lt start (omega arith)) h)
