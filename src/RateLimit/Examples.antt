-- ===== src/RateLimit/Examples.antt =====
-- The theorems on the token bucket at a bucket with two places and one token each second.
use go_mini_gateway.Common.{
  ◌+◌, ◌*◌, ◌≤◌, ◌≡◌, refl, pos, second, Text, false, Option, some, [], codes,
}
use go_mini_gateway.Http.{reply, Handler, Cell}
use go_mini_gateway.RateLimit.TokenBucket.{TokenBucket, created, new_token_bucket, allow, close}
use go_mini_gateway.RateLimit.TokenBucket.New.{full}
use go_mini_gateway.RateLimit.Flow.{
  World, admit, Reach, here, next, start_world, admitted_bounded, refused_exhausted,
}

abbrev name : Text
name = codes "api"

abbrev bucket : TokenBucket
bucket = full name 1 2

made_test : new_token_bucket name (pos 1) (pos 2) ≡ created (some bucket)
unfolding new_token_bucket
made_test = refl

abbrev drained : World
drained = record {
  bucket = some (record bucket { tokens = 0 });
  now = 0;
  admitted = 2;
  ticks = 0;
  dropped = 0;
}

drained_reached : Reach (start_world (some bucket)) drained
unfolding allow
drained_reached = next (next here (admit refl)) (admit refl)

admitted_bounded_example :
    (2 * second ≤ 2 * second + 0) × ((c : TokenBucket) × (drained.bucket ≡ some c) × (c.tokens ≤ 2))
admitted_bounded_example =
    admitted_bounded name (pos 1) (pos 2) bucket made_test drained drained_reached

drained_refuses : (allow drained.bucket).1 ≡ false
unfolding allow
drained_refuses = refl

refused_exhausted_example : (2 + 0 ≤ 2 + 0) × (2 + 0 ≤ 2 + 0 + 1)
refused_exhausted_example =
    refused_exhausted name (pos 1) (pos 2) bucket made_test drained drained_reached drained_refuses

abbrev closed_world : World
closed_world = record drained { bucket = close (some (record bucket { tokens = 0 })) }

-- A process whose state is the bucket.
abbrev whole : Cell (Option TokenBucket) (Option TokenBucket)
whole = record { get = λ b. b; put = λ b _. b; get-put = λ b _. refl }

abbrev inner : Handler Unit (Option TokenBucket)
inner _ b = (reply (record { status = 200; headers = []; body = codes "ok" }), b)
