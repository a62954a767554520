-- ===== src/RateLimit/Flow.antt =====
-- A bucket in time: any interleaving of requests, ticks, `Close` and the goroutine that refills it.
use native.Mathlib.Nat.{mul-le-mul_right}
use go_mini_gateway.RateLimit.TokenBucket.New.{created-eq_full}
use go_mini_gateway.Common.{
  ℕ, ◌+◌, ◌-◌, ◌*◌, ◌≤◌, ◌≡◌, ℤ, Text, Bool, true, false, Option, some, arith, ltb, if◌then◌else◌,
}
use go_mini_gateway.RateLimit.TokenBucket.{
  TokenBucket, created, new_token_bucket, allow, close, can_receive, receive_tick, add_token,
  can_exit, exit_refill,
}

-- The bucket, the time since it was made, and counts of what happened: requests admitted, ticks
-- received, and tokens dropped because the bucket was full.
pub record World : Type 0 where
  pub bucket : Option TokenBucket
  pub now : ℕ
  pub admitted : ℕ
  pub ticks : ℕ
  pub dropped : ℕ

abbrev drops : TokenBucket → ℕ
drops b = if ltb b.tokens b.burst then 0 else 1

-- The ticker delivers its n-th tick not before n periods have passed.
pub data Step (w : World) : World → Type 0 where
  elapse : (d : ℕ) → Step w (record w { now = w.now + d })
  admit :
      (allow w.bucket).1 ≡ true
      → Step w (record w { bucket = (allow w.bucket).0; admitted = w.admitted + 1 })
  refuse : (allow w.bucket).1 ≡ false → Step w (record w { bucket = (allow w.bucket).0 })
  shut : Step w (record w { bucket = close w.bucket })
  tick :
      (b : TokenBucket)
      → w.bucket ≡ some b
      → can_receive b ≡ true
      → (w.ticks + 1) * b.period ≤ w.now
      → Step w (record w { bucket = some (receive_tick b); ticks = w.ticks + 1 })
  add :
      (b : TokenBucket)
      → w.bucket ≡ some b
      → b.has_tick ≡ true
      → Step w (record w { bucket = some (add_token b); dropped = w.dropped + drops b })
  exit :
      (b : TokenBucket)
      → w.bucket ≡ some b
      → can_exit b ≡ true
      → Step w (record w { bucket = some (exit_refill b) })

pub data Reach (s : World) : World → Type 0 where
  here : Reach s s
  next : {t u : World} → Reach s t → Step t u → Reach s u

abbrev held : Bool → ℕ
held true = 1
held false = 0

-- Every token is in the bucket, spent, dropped, or on its way; the ticks keep their time.
record Balanced (burst period : ℕ) (w : World) (b : TokenBucket) : Type 0 where
  same : w.bucket ≡ some b
  burst_same : b.burst ≡ burst
  period_same : b.period ≡ period
  bounded : b.tokens ≤ burst
  balance : b.tokens + w.admitted + w.dropped + held b.has_tick ≡ burst + w.ticks
  paced : w.ticks * period ≤ w.now
  stopped : b.done ≡ true → b.ticking ≡ false

Step-Balanced :
    {burst period : ℕ} {w u : World}
    → Step w u
    → (b : TokenBucket) × Balanced burst period w b
    → (b : TokenBucket) × Balanced burst period u b
unfolding allow close can_receive receive_tick add_token can_exit exit_refill
Step-Balanced (elapse d) (b, h) = (b, ground arith)
Step-Balanced (admit ok) (b, h) = (record b { tokens = b.tokens - 1 }, ground arith)
Step-Balanced (refuse ok) (b, h) = (b, ground arith)
Step-Balanced shut (b, h) =
    (if b.done then b else record b { ticking = false; done = true }, ground arith)
Step-Balanced (tick c e ok due) (b, h) = (receive_tick b, ground arith)
Step-Balanced (add c e ok) (b, h) = (add_token b, ground arith)
Step-Balanced (exit c e ok) (b, h) = (exit_refill b, ground arith)

Reach-Balanced :
    {burst period : ℕ} {s w : World}
    → Reach s w
    → (b : TokenBucket) × Balanced burst period s b
    → (b : TokenBucket) × Balanced burst period w b
Reach-Balanced here h = h
Reach-Balanced (next r st) h = Step-Balanced st (Reach-Balanced r h)

-- After `Close` the ticker is silent.
record Closing (limit : ℕ) (w : World) (b : TokenBucket) : Type 0 where
  same : w.bucket ≡ some b
  silent : b.ticking ≡ false
  closed : b.done ≡ true
  left : w.admitted + b.tokens + held b.has_tick ≤ limit

Step-Closing :
    {limit : ℕ} {w u : World}
    → Step w u
    → (b : TokenBucket) × Closing limit w b
    → (b : TokenBucket) × Closing limit u b
unfolding allow close can_receive receive_tick add_token can_exit exit_refill
Step-Closing (elapse d) (b, h) = (b, ground arith)
Step-Closing (admit ok) (b, h) = (record b { tokens = b.tokens - 1 }, ground arith)
Step-Closing (refuse ok) (b, h) = (b, ground arith)
Step-Closing shut (b, h) = (b, ground arith)
Step-Closing (tick c e ok due) (b, h) = (b, ground arith)
Step-Closing (add c e ok) (b, h) = (add_token b, ground arith)
Step-Closing (exit c e ok) (b, h) = (exit_refill b, ground arith)

Reach-Closing :
    {limit : ℕ} {s w : World}
    → Reach s w
    → (b : TokenBucket) × Closing limit s b
    → (b : TokenBucket) × Closing limit w b
Reach-Closing here h = h
Reach-Closing (next r st) h = Step-Closing st (Reach-Closing r h)

held-le : (t : Bool) → held t ≤ 1
held-le t = ground arith

-- A bucket at the time when it was made.
abbrev pub start_world : Option TokenBucket → World
start_world b = record { bucket = b; now = 0; admitted = 0; ticks = 0; dropped = 0 }

new-Balanced :
    (name : Text) (rate burst : ℤ) (b : TokenBucket)
    → new_token_bucket name rate burst ≡ created (some b)
    → Balanced b.burst b.period (start_world (some b)) b
new-Balanced name rate burst b h = ground (arith, created-eq_full name rate burst b h)

bound : (a n t p now : ℕ) → a ≤ n + t → t * p ≤ now → a * p ≤ n * p + now
bound a n t p now h k = omega (arith, mul-le-mul_right p h)

module _ (name : Text) (rate burst : ℤ) (b : TokenBucket)
    (made : new_token_bucket name rate burst ≡ created (some b)) where
  reached :
      {w : World}
      → Reach (start_world (some b)) w
      → (c : TokenBucket) × Balanced b.burst b.period w c
  reached r = Reach-Balanced r (b, new-Balanced name rate burst b made)

  -- Whatever the interleaving, at any time since the bucket was made: the requests admitted are at most
  -- the burst and one for each period that has passed (both sides times the period), and the bucket
  -- never holds more than the burst.
  pub admitted_bounded :
      (w : World)
      → Reach (start_world (some b)) w
      → (w.admitted * b.period ≤ b.burst * b.period + w.now)
        × ((c : TokenBucket) × (w.bucket ≡ some c) × (c.tokens ≤ b.burst))
  admitted_bounded w r =
      let (c, h) = reached r in
      (
        bound w.admitted b.burst w.ticks b.period w.now (omega (arith, h.balance)) h.paced,
        (c, h.same, h.bounded),
      )

  -- No token is lost: when a request is refused, as many requests were admitted as the burst and the
  -- ticks gave tokens, less the ticks that came when the bucket was full and one that may be in the
  -- goroutine's hand.
  pub refused_exhausted :
      (w : World)
      → Reach (start_world (some b)) w
      → (allow w.bucket).1 ≡ false
      → (w.admitted + w.dropped ≤ b.burst + w.ticks)
        × (b.burst + w.ticks ≤ w.admitted + w.dropped + 1)
  unfolding allow
  refused_exhausted w r no_token = let (c, h) = reached r in ground (arith, h.same, h.balance)

  -- After `Close`, whatever follows, at most the tokens that are in the bucket and one that was on its
  -- way are admitted.
  close_drains :
      (w u : World) (c : TokenBucket)
      → Reach (start_world (some b)) w
      → w.bucket ≡ some c
      → Reach (record w { bucket = close w.bucket }) u
      → u.admitted ≤ w.admitted + c.tokens + 1
  unfolding close
  close_drains w u c r e q =
      let (d, h) = reached r in
      let stopped = if c.done then c else record c { ticking = false; done = true } in
      let (z, k) =
        Reach-Closing {limit = w.admitted + c.tokens + 1} q
          (stopped, ground (arith, h.same, h.stopped, held-le c.has_tick)) in
      omega (arith, k.left)
