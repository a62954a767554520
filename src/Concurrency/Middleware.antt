-- ===== src/Concurrency/Middleware.antt =====
-- internal/concurrency/middleware.go, over the cell of the state that holds the limiter.
use go_mini_gateway.Common.{
  ◌+◌, ◌≤◌, ◌≡◌, Bool, true, false, Option, none, some, [], ◌∷◌, codes, arith, ◌∙◌, Option-cases,
  ltb, inl, inr, Bool-cases,
}
use go_mini_gateway.Http.{Reply, Handler, http_error, Cell}
use go_mini_gateway.Concurrency.Limiter.{Limiter, try_acquire, release}

-- `defer limiter.Release()` runs behind a reply and behind a panic.
abbrev release_after : {S : Type 0} → Cell S (Option Limiter) → Reply × S → Reply × S
release_after cell (r, s) = (r, cell.put (release (cell.get s)) s)

-- The answer to a request that finds no free place.
abbrev pub limit_exceeded : Reply
limit_exceeded =
    http_error ((codes "Content-Type", codes "text/plain; charset=utf-8") ∷ [])
      (codes "concurrency limit exceeded") 503

module _ {R S : Type 0} (cell : Cell S (Option Limiter)) where
  admit : Handler R S → R → S → Option Limiter × Bool → Reply × S
  admit next r s (l, false) = (limit_exceeded, cell.put l s)
  admit next r s (l, true) = release_after cell (next r (cell.put l s))

  guard : Handler R S → R → S → Option Limiter → Reply × S
  unfolding admit
  guard next r s none = next r s
  guard next r s (some l) = admit next r s (try_acquire (some l))

  unfoldable pub middleware : Handler R S → Handler R S
  unfolding guard
  middleware next r s = guard next r s (cell.get s)

  -- A request that finds every place taken is answered 503, and the inner handler does not run: the
  -- answer and the state are the same for every inner handler.
  middleware_full :
      (next : Handler R S) (r : R) (s : S) (l : Limiter)
      → cell.get s ≡ some l
      → l.capacity ≤ l.semaphore
      → middleware next r s ≡ (limit_exceeded, cell.put (some l) s)
  unfolding middleware try_acquire
  middleware_full next r s l e full = rw e (ground arith)

  guard_balanced :
      (next : Handler R S) (r : R) (s : S) (l : Limiter)
      → ((s' : S) → cell.get (next r s').1 ≡ cell.get s')
      → cell.get (guard next r s (some l)).1 ≡ some l
  unfolding guard try_acquire release
  guard_balanced next r s l keep = elim (Bool-cases (ltb l.semaphore l.capacity)) [
    | inl room ↦
        let taken = record l { semaphore = l.semaphore + 1 } in
        rw (room, cell.get-put, keep, cell.get-put) (ground arith)
    | inr busy ↦ rw (busy, cell.get-put)
  ]

  -- A request that is let through holds one place while the inner handler runs, and gives it back
  -- whether that handler replies or panics: if it leaves the limiter alone, so does the middleware.
  middleware_balanced :
      (next : Handler R S) (r : R) (s : S)
      → ((s' : S) → cell.get (next r s').1 ≡ cell.get s')
      → cell.get (middleware next r s).1 ≡ cell.get s
  unfolding middleware try_acquire release
  middleware_balanced next r s keep = elim (Option-cases (cell.get s)) [
    | inl e ↦ rw (e, guard) (keep s ∙ e)
    | inr (l, e) ↦ rw (e, guard_balanced next r s l keep)
  ]
