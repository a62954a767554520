-- ===== src/Proxy/Upstream/Fair.antt =====
-- Rotation over the upstreams, and the wrap of the counter.
use go_mini_gateway.Proxy.Upstream.Acquire.{IsValid}
use mathlib.Core.Bool.{false≢true}
use mathlib.Core.Path.{subst}
use native.Mathlib.Decide.{dec_lt}
use go_mini_gateway.Proxy.Upstream.Select.{
  select_upstream_lem, with_result, select_from-Outcome, Outcome, Refuses,
}
use go_mini_gateway.Common.{
  ℕ, zero, suc, ◌+◌, ◌-◌, ◌%◌, ◌*◌, ◌/◌, ◌≤◌, ◌<◌, ◌≡◌, ◌≢◌, refl, Time, true, Option, none, some,
  List, [], ◌∷◌, arith, length, get_elem?, All, set-get_elem?, get_elem?-lt, All-get_elem?, ap, sym,
  ◌∙◌, lt_of_get_elem?,
}
use native.Mathlib.Nat.{div-add-mod, mul-mod_right, mod-eq_of_lt}
use go_mini_gateway.Proxy.Upstream.{
  Upstream, Handler, try_acquire, u64, index_of, select_from, select_upstream,
}

-- An upstream that accepts every request as it is, such as one with no health state and no breaker, or
-- one that is healthy with a closed breaker.
abbrev pub IsReady : Upstream → Type 0
IsReady u = (now : Time) → try_acquire u now ≡ (u, true)

ready_first :
    (clock : ℕ → Time) (start : ℕ) (us : List Upstream)
    → All IsReady us
    → 0 < length us
    → start < u64
    → select_from clock start (length us) (length us) 0 us ≡ (us, some (start % length us))
unfolding select_from index_of
ready_first clock start [] r pos h = absurd (omega arith)
ready_first clock start (u ∷ us) r pos h =
    let index = start % length (u ∷ us) in
    let (w, e) = get_elem?-lt (u ∷ us) index (omega arith) in
    let here : (start + 0) % u64 ≡ start = omega arith in
    rw (here, e, All-get_elem? IsReady (u ∷ us) index r e (clock 0), set-get_elem? (u ∷ us) index e)

-- The choices of the given number of selections, one after another.
unfoldable pub picks : (ℕ → Time) → ℕ → Handler → List (Option ℕ)
picks clock zero h = []
picks clock (suc n) h = let (h', chosen) = select_upstream h clock in chosen ∷ picks clock n h'

ready_pick :
    (clock : ℕ → Time) (h : Handler)
    → All IsReady h.upstreams
    → 0 < length h.upstreams
    → h.next_index < u64
    → select_upstream h clock ≡ (
      record h { next_index = (h.next_index + 1) % u64 },
      some (h.next_index % length h.upstreams),
    )
ready_pick clock h r pos fits =
    select_upstream_lem h clock pos fits
    ∙ ap (with_result h) (ready_first clock h.next_index h.upstreams r pos fits)

-- While every upstream accepts, and up to the wrap of the counter, the selections go round the list: the
-- `i`-th of them takes the place `nextIndex + i`, modulo the number of upstreams.
picks_rotate :
    (clock : ℕ → Time) (n i : ℕ) (h : Handler)
    → All IsReady h.upstreams
    → 0 < length h.upstreams
    → h.next_index + n ≤ u64
    → i < n
    → get_elem? (picks clock n h) i ≡ some (some ((h.next_index + i) % length h.upstreams))
unfolding picks
picks_rotate clock zero i h r pos fits l = absurd (omega arith)
picks_rotate clock (suc n) zero h r pos fits l =
    let same : h.next_index + 0 ≡ h.next_index = omega arith in
    rw (ready_pick clock h r pos (omega arith), same)
picks_rotate clock (suc n) (suc i) h r pos fits l =
    let one_up : (h.next_index + 1) % u64 ≡ h.next_index + 1 = omega arith in
    let shift : h.next_index + suc i ≡ h.next_index + 1 + i = omega arith in
    rw (ready_pick clock h r pos (omega arith), one_up, shift)
      (picks_rotate clock n i (record h { next_index = h.next_index + 1 }) r pos (omega arith)
        (omega arith))

module _ (count : ℕ) (two : 2 ≤ count) (one_left : u64 % count ≡ 1) where
  last_mod : (u64 - 1) % count ≡ 0
  last_mod =
      let split : u64 - 1 ≡ count * (u64 / count) = omega (arith, div-add-mod u64 count) in
      rw split (mul-mod_right count (u64 / count))

  count-le : count ≤ u64
  count-le = elim (dec_lt u64 count) [
    | yes big ↦ let same : u64 % count ≡ u64 = mod-eq_of_lt big in absurd (omega arith)
    | no small ↦ omega arith
  ]

  -- Round 0 visits the first upstream, and so does round 1.
  wrapped_index : (i : ℕ) → i < count → index_of (u64 - 1) count i ≢ count - 1
  unfolding index_of
  wrapped_index zero l e = omega (arith, last_mod)
  wrapped_index (suc i) l e =
      let wrapped : (u64 - 1 + suc i) % u64 ≡ i = omega (arith, count-le) in
      let low : i % count ≡ i = mod-eq_of_lt (omega arith) in
      let e' : i % count ≡ count - 1 = subst (λ n. n % count ≡ count - 1) wrapped e in omega arith

none_of_others :
    (clock : ℕ → Time) (us : List Upstream)
    → 2 ≤ length us
    → u64 % length us ≡ 1
    → ((j : ℕ) (now : Time) → j + 1 < length us → Refuses us j now)
    → (r : List Upstream × Option ℕ) → Outcome clock (u64 - 1) us 0 (length us) r
    → r.1 ≡ none
none_of_others clock us two one others (us', none) o = refl
none_of_others clock us two one others (us', some j) (k, u, l, m, a) =
    let skipped = wrapped_index (length us) two one k (omega arith) in
    let in_range = lt_of_get_elem? us j a.found in
    let not_last : j ≢ length us - 1 = λ e. skipped (a.index ∙ e) in
    absurd (false≢true (sym (others j (clock k) (omega arith) u a.found) ∙ a.accepted))

-- At the wrap of the counter an upstream is passed over: with the counter at 2^64 - 1, a number of
-- upstreams that leaves 1 when it divides 2^64, such as 3 or 5, and all upstreams but the last one
-- refusing, the selection takes none, whether or not the last one would accept.
pub wrap_skips_last :
    (h : Handler) (clock : ℕ → Time)
    → All IsValid h.upstreams
    → h.next_index ≡ u64 - 1
    → 2 ≤ length h.upstreams
    → u64 % length h.upstreams ≡ 1
    → ((j : ℕ) (now : Time) → j + 1 < length h.upstreams → Refuses h.upstreams j now)
    → (select_upstream h clock).1 ≡ none
wrap_skips_last h clock v last two one others =
    let o =
      subst
        (λ n.
          Outcome clock n h.upstreams 0 (length h.upstreams)
            (select_from clock n (length h.upstreams) (length h.upstreams) 0 h.upstreams))
        last
        (select_from-Outcome clock h.next_index h.upstreams (length h.upstreams) 0 (omega arith)
          v) in
    rw (select_upstream_lem h clock (omega arith) (omega arith), last)
      (none_of_others clock h.upstreams two one others _ o)
