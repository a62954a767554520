-- ===== src/RateLimit/Middleware.antt =====
-- internal/ratelimit/middleware.go, over the cell of the state that holds the bucket.
use native.Mathlib.Decide.{dec_lt}
use go_mini_gateway.Common.{
  ◌-◌, ◌≡◌, ◌<◌, Bool, true, false, Option, none, some, [], ◌∷◌, codes, arith, ◌⊎◌, inl, inr,
}
use go_mini_gateway.Http.{Reply, Handler, http_error, Cell}
use go_mini_gateway.RateLimit.TokenBucket.{TokenBucket, allow}

-- The answer to a request that finds no token.
abbrev pub limit_exceeded : Reply
limit_exceeded =
    http_error ((codes "Content-Type", codes "text/plain; charset=utf-8") ∷ [])
      (codes "rate limit exceeded") 429

module _ {R S : Type 0} (cell : Cell S (Option TokenBucket)) where
  admit : Handler R S → R → S → Option TokenBucket × Bool → Reply × S
  admit next r s (b, false) = (limit_exceeded, cell.put b s)
  admit next r s (b, true) = next r (cell.put b s)

  guard : Handler R S → R → S → Option TokenBucket → Reply × S
  unfolding admit
  guard next r s none = next r s
  guard next r s (some b) = admit next r s (allow (some b))

  unfoldable pub middleware : Handler R S → Handler R S
  unfolding guard
  middleware next r s = guard next r s (cell.get s)

  -- A request that finds a token takes it and is handed on; one that finds none is answered 429, takes
  -- nothing, and the inner handler does not run.
  middleware_tokens :
      (next : Handler R S) (r : R) (s : S) (b : TokenBucket)
      → cell.get s ≡ some b
      → ((0 < b.tokens)
          × (middleware next r s ≡ next r (cell.put (some (record b { tokens = b.tokens - 1 })) s)))
        ⊎ ((b.tokens ≡ 0) × (middleware next r s ≡ (limit_exceeded, cell.put (some b) s)))
  unfolding middleware allow
  middleware_tokens next r s b e = rw e (elim (dec_lt 0 b.tokens) [
    | yes some_left ↦ inl (some_left, ground arith)
    | no none_left ↦ inr (omega arith, ground arith)
  ])
