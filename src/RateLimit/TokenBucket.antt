-- ===== src/RateLimit/TokenBucket.antt =====
-- internal/ratelimit/token_bucket.go. The channel `tokens` is its number of elements, with `burst`
-- places. Of the ticker and the channel `done` the bucket keeps whether the one runs and the other is
-- closed; of the goroutine `refill`, whether it runs and whether it holds a tick. A nil bucket is `none`.
pub mod New
use go_mini_gateway.Common.{
  ℕ, zero, suc, ◌+◌, ◌-◌, ◌/◌, ℤ, pos, pos_part, leb_ℤ, ltb, leb, ◌==◌, Bool, true, false, ◌&&◌,
  not, Option, none, some, [], Text, second, if◌then◌else◌,
}

pub record TokenBucket : Type 0 where
  pub name : Text
  pub rate : ℕ
  pub burst : ℕ
  pub tokens : ℕ
  pub period : ℕ
  pub ticking : Bool
  pub done : Bool
  pub refilling : Bool
  pub has_tick : Bool

-- `NewTokenBucket` returns nil or a bucket; `time.NewTicker` panics when the period is not positive.
pub data Created : Type 0 where
  created : Option TokenBucket → Created
  panicked : Created

-- `for i := 0; i < burst; i++ { b.tokens <- struct{}{} }`, with the rounds left.
fill : ℕ → TokenBucket → TokenBucket
fill zero b = b
fill (suc rounds) b = fill rounds (record b { tokens = b.tokens + 1 })

start : Text → ℕ → ℕ → Created
unfolding fill
start name rate burst =
    if second / rate == 0
    then panicked
    else created (
        some (
          fill burst (record {
            name = name;
            rate = rate;
            burst = burst;
            tokens = 0;
            period = second / rate;
            ticking = true;
            done = false;
            refilling = true;
            has_tick = false;
          })))

unfoldable pub new_token_bucket : Text → ℤ → ℤ → Created
unfolding start
new_token_bucket name rate burst =
    if leb_ℤ rate (pos 0)
    then created none
    else if leb_ℤ burst (pos 0)
    then created none
    else start name (pos_part rate) (pos_part burst)

take_token : TokenBucket → TokenBucket × Bool
take_token b = if ltb 0 b.tokens then (record b { tokens = b.tokens - 1 }, true) else (b, false)

unfoldable pub allow : Option TokenBucket → Option TokenBucket × Bool
unfolding take_token
allow none = (none, true)
allow (some b) = let (b', ok) = take_token b in (some b', ok)

-- `once.Do` runs its function in the first call alone; `done` is closed nowhere else.
unfoldable pub close : Option TokenBucket → Option TokenBucket
close none = none
close (some b) = if b.done then some b else some (record b { ticking = false; done = true })

-- `refill` receives a tick: the ticker runs, since none is received after `Stop`.
unfoldable pub can_receive : TokenBucket → Bool
can_receive b = b.refilling && not b.has_tick && b.ticking

unfoldable pub receive_tick : TokenBucket → TokenBucket
receive_tick b = record b { has_tick = true }

-- The inner `select`: a send that does not block.
unfoldable pub add_token : TokenBucket → TokenBucket
add_token b =
    if ltb b.tokens b.burst
    then record b { tokens = b.tokens + 1; has_tick = false }
    else record b { has_tick = false }

-- `case <-b.done: return`
unfoldable pub can_exit : TokenBucket → Bool
can_exit b = b.refilling && not b.has_tick && b.done

unfoldable pub exit_refill : TokenBucket → TokenBucket
exit_refill b = record b { refilling = false }

pub record SnapShot : Type 0 where
  pub name : Text
  pub rate : ℕ
  pub burst : ℕ
  pub available_tokens : ℕ

unfoldable pub snapshot : Option TokenBucket → SnapShot
snapshot none = record { name = []; rate = 0; burst = 0; available_tokens = 0 }
snapshot (some b) = record {
  name = b.name;
  rate = b.rate;
  burst = b.burst;
  available_tokens = b.tokens;
}
