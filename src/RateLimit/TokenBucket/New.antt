-- ===== src/RateLimit/TokenBucket/New.antt =====
-- What `NewTokenBucket` returns.
use native.Mathlib.Decide.{dec_lt}
use go_mini_gateway.Common.{
  ℕ, zero, suc, ◌+◌, ◌/◌, ◌≡◌, ◌≢◌, ◌⊎◌, ℤ, pos, negsuc, pos_part, Text, true, false, none, some,
  arith, second, inl, inr, ◌∙◌, ◌≤ℤ◌, ◌<ℤ◌,
}
use go_mini_gateway.RateLimit.TokenBucket.{
  TokenBucket, created, panicked, fill, start, new_token_bucket,
}

fill_lem : (n : ℕ) (b : TokenBucket) → fill n b ≡ record b { tokens = b.tokens + n }
unfolding fill
fill_lem zero b = ground arith
fill_lem (suc n) b = fill_lem n (record b { tokens = b.tokens + 1 }) ∙ ground arith

-- A bucket as it leaves the constructor.
abbrev pub full : Text → ℕ → ℕ → TokenBucket
full name rate burst = record {
  name = name;
  rate = rate;
  burst = burst;
  tokens = burst;
  period = second / rate;
  ticking = true;
  done = false;
  refilling = true;
  has_tick = false;
}

start_lem :
    (name : Text) (rate burst : ℕ)
    → second / rate ≢ 0
    → start name rate burst ≡ created (some (full name rate burst))
unfolding start
start_lem name rate burst h = rw fill_lem (ground arith)

start_panics : (name : Text) (rate burst : ℕ) → second / rate ≡ 0 → start name rate burst ≡ panicked
unfolding start
start_panics name rate burst h = ground arith

-- The constructor makes no bucket for a rate or a burst that is not positive; for a positive burst it
-- panics when the rate is above the nanoseconds of a second, and otherwise makes a full bucket whose
-- ticker has the period `second / rate`.
pub new_token_bucket_lem :
    (name : Text) (rate burst : ℤ)
    → (((rate ≤ℤ pos 0) ⊎ (burst ≤ℤ pos 0)) × (new_token_bucket name rate burst ≡ created none))
      ⊎ ((pos second <ℤ rate) × (pos 0 <ℤ burst) × (new_token_bucket name rate burst ≡ panicked))
      ⊎ ((pos 0 <ℤ rate)
          × (rate ≤ℤ pos second)
          × (pos 0 <ℤ burst)
          × (new_token_bucket name rate burst
              ≡ created (some (full name (pos_part rate) (pos_part burst)))))
unfolding new_token_bucket
new_token_bucket_lem name (negsuc r) burst = inl (inl (omega arith), ground arith)
new_token_bucket_lem name (pos r) (negsuc n) = inl (inr (omega arith), ground arith)
new_token_bucket_lem name (pos r) (pos n) = elim (dec_lt 0 r) [
  | no no_rate ↦ inl (inl (omega arith), ground arith)
  | yes rate ↦ elim (dec_lt 0 n) [
    | no no_burst ↦ inl (inr (omega arith), ground arith)
    | yes burst ↦ elim (dec_lt second r) [
      | yes fast ↦
          inr (inl (omega arith, omega arith, ground (arith, start_panics name r n (grind arith))))
      | no slow ↦ inr (
          inr (
            omega arith,
            omega arith,
            omega arith,
            ground (arith, start_lem name r n (grind arith)),
          ))
    ]
  ]
]

-- A bucket that was made is full, and has the period of its rate.
pub created-eq_full :
    (name : Text) (rate burst : ℤ) (b : TokenBucket)
    → new_token_bucket name rate burst ≡ created (some b)
    → b ≡ full name (pos_part rate) (pos_part burst)
created-eq_full name rate burst b h = elim (new_token_bucket_lem name rate burst) [
  | inl (_, e) ↦ cc
  | inr (inl (_, _, e)) ↦ cc
  | inr (inr (_, _, _, e)) ↦ cc
]
