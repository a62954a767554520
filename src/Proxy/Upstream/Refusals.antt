-- ===== src/Proxy/Upstream/Refusals.antt =====
-- When the selection takes no upstream.
use mathlib.Core.Bool.{false≢true}
use mathlib.Core.Path.{subst}
use native.Mathlib.Decide.{dec_lt}
use go_mini_gateway.Common.{
  ℕ, ◌+◌, ◌≤◌, ◌<◌, ◌≡◌, ◌↔◌, refl, sym, ◌∙◌, Time, false, Option, none, some, List, arith, length,
  All, lt_of_get_elem?,
}
use go_mini_gateway.Proxy.Upstream.{Upstream, Handler, try_acquire, u64, select_upstream}
use go_mini_gateway.Proxy.Upstream.Acquire.{IsValid}
use go_mini_gateway.Proxy.Upstream.Rounds.{
  round_of, round_of-lt, index_of-round_of, round_of-index_of,
}
use go_mini_gateway.Proxy.Upstream.Select.{
  Refuses, Outcome, select_from-Outcome, select_upstream_empty, select_upstream_lem,
}

none_iff :
    (clock : ℕ → Time) (start : ℕ) (us : List Upstream)
    → start + length us ≤ u64
    → (r : List Upstream × Option ℕ) → Outcome clock start us 0 (length us) r
    → (r.1 ≡ none) ↔ ((j : ℕ) → j < length us → Refuses us j (clock (round_of start (length us) j)))
none_iff clock start us fits (us', none) (same, all) = (λ _ j l. turn j l, λ _. refl)
  where
    turn : (j : ℕ) → j < length us → Refuses us j (clock (round_of start (length us) j))
    turn j l =
        let k = round_of start (length us) j in
        let short = round_of-lt start (length us) j (omega arith) in
        subst (λ n. Refuses us n (clock k)) (index_of-round_of start (length us) j fits l)
          (all k (omega arith) (omega arith))
none_iff clock start us fits (us', some j) (k, u, l, m, a) =
    (λ e. cc, λ all. absurd (false≢true (sym (all_refused all) ∙ a.accepted)))
  where
    back : round_of start (length us) j ≡ k
    back =
        subst (λ n. round_of start (length us) n ≡ k) a.index
          (round_of-index_of start (length us) k fits (omega arith))

    all_refused :
        ((i : ℕ) → i < length us → Refuses us i (clock (round_of start (length us) i)))
        → (try_acquire u (clock k)).1 ≡ false
    all_refused all =
        subst (λ n. (try_acquire u (clock n)).1 ≡ false) back
          (all j (lt_of_get_elem? us j a.found) u a.found)

-- Without a wrap of the counter, the selection takes none exactly when every upstream refuses in the
-- round in which its turn comes.
select_upstream-none_iff :
    (h : Handler) (clock : ℕ → Time)
    → All IsValid h.upstreams
    → h.next_index + length h.upstreams ≤ u64
    → ((select_upstream h clock).1 ≡ none) ↔ (
        (j : ℕ)
        → j < length h.upstreams
        → Refuses h.upstreams j (clock (round_of h.next_index (length h.upstreams) j)))
select_upstream-none_iff h clock v fits = elim (dec_lt 0 (length h.upstreams)) [
  | yes pos ↦ rw (select_upstream_lem h clock pos (omega arith)) (
      none_iff clock h.next_index h.upstreams fits _
        (select_from-Outcome clock h.next_index h.upstreams (length h.upstreams) 0 pos v))
  | no empty ↦
      rw (select_upstream_empty h clock (omega arith)) (λ _ j l. absurd (omega arith), λ _. refl)
]
