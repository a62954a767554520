-- ===== src/Proxy/Handler/Kept.antt =====
-- What the end of a request leaves of the upstreams.
use go_mini_gateway.Common.{
  ℕ, ◌<◌, ◌≡◌, inl, inr, refl, Time, some, leb, length, get_elem?-lt, Bool-cases,
}
use go_mini_gateway.Http.{Reply}
use go_mini_gateway.Proxy.Upstream.{Upstream, Handler}
use go_mini_gateway.Proxy.Upstream.Kept.{
  IsKept, record_success-IsKept, record_failure-IsKept, AreKept, AreKept-set,
}
use go_mini_gateway.Proxy.Handler.{Answer, responded, failed, settle, finish}

settle-IsKept :
    (h : Handler) (u : Upstream) (answer : Answer) (now : Time) → IsKept u (settle h u answer now).0
unfolding settle
settle-IsKept h u (responded resp) now = elim (Bool-cases (leb 500 resp.status)) [
  | inl failing ↦ rw failing (record_failure-IsKept u now _)
  | inr fine ↦ rw fine (record_success-IsKept u now)
]
settle-IsKept h u (failed e) now = record_failure-IsKept u now e.message

-- A request that ends at one of the upstreams gets an answer, and leaves the same upstreams.
pub finish-AreKept :
    (h : Handler) (j : ℕ) (answer : Answer) (now : Time)
    → j < length h.upstreams
    → AreKept h.upstreams (finish h j answer now).0.upstreams
      × ((r : Reply) × ((finish h j answer now).1 ≡ some r))
unfolding finish
finish-AreKept h j answer now inside =
    let (u, e) = get_elem?-lt h.upstreams j inside in
    rw e (
      AreKept-set h.upstreams j u (settle h u answer now).0 e (settle-IsKept h u answer now),
      ((settle h u answer now).1, refl),
    )
