-- ===== src/Proxy/Upstream/Select.antt =====
-- Which upstream the selection takes: the loop of selectUpstream of internal/proxy/upstream.go.
use mathlib.Core.Bool.{false≢true}
use mathlib.Core.Path.{subst}
use native.Mathlib.Decide.{ℕ_discrete, dec_lt}
use go_mini_gateway.Common.{
  ℕ, zero, suc, ◌+◌, ◌-◌, ◌%◌, ◌≤◌, ◌<◌, ◌≡◌, inl, inr, refl, sym, ap, ◌∙◌, Time, true, false,
  Option, none, some, List, arith, length, get_elem?, set, All, Bool-cases, set-get_elem?,
  get_elem?-lt, All-get_elem?, ◌==◌,
}
use go_mini_gateway.Proxy.Upstream.{
  Upstream, Handler, try_acquire, u64, index_of, select_from, select_upstream,
}
use go_mini_gateway.Proxy.Upstream.Acquire.{IsValid, try_acquire_refused}
use go_mini_gateway.Proxy.Upstream.Admits.{Admits, asked, try_acquire_iff, try_acquire_asked}
use go_mini_gateway.Proxy.Upstream.Rounds.{index_of-lt}

-- The upstream at an index refuses a request at a time.
abbrev pub Refuses : List Upstream → ℕ → Time → Type 0
Refuses us j now = (u : Upstream) → get_elem? us j ≡ some u → (try_acquire u now).1 ≡ false

-- The rounds from `i` on, before `k`, all refuse.
abbrev pub RefusesTo : (ℕ → Time) → ℕ → List Upstream → ℕ → ℕ → Type 0
RefusesTo clock start us i k =
    (m : ℕ) → i ≤ m → m < k → Refuses us (index_of start (length us) m) (clock m)

-- The round `k` accepts, after all rounds before it refused.
pub record Accepts (clock : ℕ → Time) (start : ℕ) (us : List Upstream) (i k : ℕ)
    (us' : List Upstream) (j : ℕ) (u : Upstream) : Type 0 where
  pub index : index_of start (length us) k ≡ j
  pub found : get_elem? us j ≡ some u
  pub accepted : (try_acquire u (clock k)).1 ≡ true
  pub updated : us' ≡ set us j (try_acquire u (clock k)).0
  pub refused : RefusesTo clock start us i k

abbrev pub Outcome : (ℕ → Time) → ℕ → List Upstream → ℕ → ℕ → List Upstream × Option ℕ → Type 0
Outcome clock start us i rounds (us', none) = (us' ≡ us) × RefusesTo clock start us i (i + rounds)
Outcome clock start us i rounds (us', some j) =
    (k : ℕ) × (u : Upstream) × (i ≤ k) × (k < i + rounds) × Accepts clock start us i k us' j u

Refuses-of :
    (us : List Upstream) (j : ℕ) (now : Time) (u : Upstream)
    → get_elem? us j ≡ some u
    → (try_acquire u now).1 ≡ false
    → Refuses us j now
Refuses-of us j now u e h w f = ground arith

module _ (clock : ℕ → Time) (start : ℕ) (us : List Upstream) where
  RefusesTo-cons :
      (i k : ℕ)
      → Refuses us (index_of start (length us) i) (clock i)
      → RefusesTo clock start us (i + 1) k
      → RefusesTo clock start us i k
  RefusesTo-cons i k first later m h l u = elim (ℕ_discrete i m) [
    | yes e ↦
        subst
          (λ (n : ℕ).
            get_elem? us (index_of start (length us) n) ≡ some u
            → (try_acquire u (clock n)).1 ≡ false)
          e (first u)
    | no ne ↦ later m (omega arith) l u
  ]

  Outcome-cons :
      (i rounds : ℕ) (r : List Upstream × Option ℕ)
      → Refuses us (index_of start (length us) i) (clock i)
      → Outcome clock start us (i + 1) rounds r
      → Outcome clock start us i (suc rounds) r
  Outcome-cons i rounds (us', none) first (same, later) =
      (same, RefusesTo-cons i (i + suc rounds) first (λ m h l. later m h (omega arith)))
  Outcome-cons i rounds (us', some j) first (k, u, h, l, a) = (
    k,
    u,
    omega arith,
    omega arith,
    record {
      index = a.index;
      found = a.found;
      accepted = a.accepted;
      updated = a.updated;
      refused = RefusesTo-cons i k first a.refused;
    },
  )

  pub select_from-Outcome :
      (rounds i : ℕ)
      → 0 < length us
      → All IsValid us
      → Outcome clock start us i rounds (select_from clock start (length us) rounds i us)
  unfolding select_from
  select_from-Outcome zero i pos v = (refl, λ m h k. absurd (omega arith))
  select_from-Outcome (suc rounds) i pos v =
      let index = index_of start (length us) i in
      let (u, e) = get_elem?-lt us index (index_of-lt start (length us) i pos) in
      rw e (elim (Bool-cases (try_acquire u (clock i)).1) [
        | inl yes_ ↦ rw yes_ (
          i,
          u,
          omega arith,
          omega arith,
          record {
            index = refl;
            found = e;
            accepted = yes_;
            updated = refl;
            refused = λ m h l. absurd (omega arith);
          },
        )
        | inr no_ ↦
            let same = try_acquire_refused u (clock i) (All-get_elem? IsValid us index v e) no_ in
            rw (no_, same, set-get_elem? us index e)
              (Outcome-cons i rounds _ (Refuses-of us index (clock i) u e no_)
                (select_from-Outcome rounds (i + 1) pos v))
      ])

start_lem : (n : ℕ) → n < u64 → ((n + 1) % u64 + u64 - 1) % u64 ≡ n
start_lem n k = omega arith

abbrev pub with_result : Handler → List Upstream × Option ℕ → Handler × Option ℕ
with_result h (us, chosen) =
    (record h { upstreams = us; next_index = (h.next_index + 1) % u64 }, chosen)

pub select_upstream_empty :
    (h : Handler) (clock : ℕ → Time) → length h.upstreams ≡ 0 → select_upstream h clock ≡ (h, none)
unfolding select_upstream
select_upstream_empty h clock e = rw e

pub select_upstream_lem :
    (h : Handler) (clock : ℕ → Time)
    → 0 < length h.upstreams
    → h.next_index < u64
    → select_upstream h clock
      ≡ with_result h
          (select_from clock h.next_index (length h.upstreams) (length h.upstreams) 0 h.upstreams)
unfolding select_upstream
select_upstream_lem h clock pos fits =
    let nonempty : (length h.upstreams == 0) ≡ false = ground arith in
    rw (start_lem h.next_index fits, nonempty)

select_upstream-Outcome :
    (h h' : Handler) (clock : ℕ → Time) (j : ℕ) (r : List Upstream × Option ℕ)
    → Outcome clock h.next_index h.upstreams 0 (length h.upstreams) r
    → with_result h r ≡ (h', some j)
    → (k : ℕ) × (u : Upstream) × (k < length h.upstreams)
      × Accepts clock h.next_index h.upstreams 0 k h'.upstreams j u
      × (h'.next_index ≡ (h.next_index + 1) % u64)
select_upstream-Outcome h h' clock j (us', none) o e = cc
select_upstream-Outcome h h' clock j (us', some i) (k, u, l, m, a) e =
    let same : i ≡ j = cc in
    (
      k,
      u,
      omega arith,
      record {
        index = a.index ∙ same;
        found = rw (← same) a.found;
        accepted = a.accepted;
        updated = rw (← same) (ap (λ (x : Handler × Option ℕ). x.0.upstreams) (sym e) ∙ a.updated);
        refused = a.refused;
      },
      ap (λ (x : Handler × Option ℕ). x.0.next_index) (sym e),
    )

selected_round :
    (h h' : Handler) (clock : ℕ → Time) (j : ℕ)
    → All IsValid h.upstreams
    → h.next_index < u64
    → select_upstream h clock ≡ (h', some j)
    → (k : ℕ) × (u : Upstream) × (k < length h.upstreams)
      × Accepts clock h.next_index h.upstreams 0 k h'.upstreams j u
      × (h'.next_index ≡ (h.next_index + 1) % u64)
selected_round h h' clock j v fits e = elim (dec_lt 0 (length h.upstreams)) [
  | yes pos ↦
      select_upstream-Outcome h h' clock j _
        (select_from-Outcome clock h.next_index h.upstreams (length h.upstreams) 0 pos v)
        (sym (select_upstream_lem h clock pos fits) ∙ e)
  | no empty ↦ let z = select_upstream_empty h clock (omega arith) in cc
]

-- The round `k` takes the upstream at `j`: it is the one whose turn it is, counted from the start around the
-- list; it lets the request in, and those whose turn came before did not.
pub record Takes (clock : ℕ → Time) (start : ℕ) (us : List Upstream) (k : ℕ) (us' : List Upstream)
    (j : ℕ) (u : Upstream) : Type 0 where
  pub index : (start + k) % u64 % length us ≡ j
  pub found : get_elem? us j ≡ some u
  pub admits : Admits u (clock k)
  pub updated : us' ≡ set us j (asked u (clock k))
  pub refused :
      (m : ℕ) (v : Upstream)
      → m < k
      → get_elem? us ((start + m) % u64 % length us) ≡ some v
      → ¬ Admits v (clock m)

Takes-of :
    (clock : ℕ → Time) (start : ℕ) (us : List Upstream) (k : ℕ) (us' : List Upstream) (j : ℕ)
    (u : Upstream)
    → Accepts clock start us 0 k us' j u
    → Takes clock start us k us' j u
unfolding index_of
Takes-of clock start us k us' j u a = record {
  index = a.index;
  found = a.found;
  admits = (try_acquire_iff u (clock k)).0 a.accepted;
  updated = a.updated ∙ ap (set us j) (try_acquire_asked u (clock k) a.accepted);
  refused = λ m v l e admits.
      let yes_ = (try_acquire_iff v (clock m)).1 admits in
      false≢true (sym (a.refused m (omega arith) l v e) ∙ yes_);
}

-- A selection that takes an upstream takes, of the indices nextIndex, nextIndex + 1 and so on, modulo 2^64 and
-- the number of upstreams, the first one whose upstream lets the request in by its health checks and its
-- breaker, each at the time at which it is asked: those before it did not, that upstream's breaker is asked and
-- nothing else of it changes, every other upstream is left as it was, and the counter goes up by one, modulo
-- 2^64. The breakers are valid, and the counter is below 2^64.
pub select_upstream-some :
    (h h' : Handler) (clock : ℕ → Time) (j : ℕ)
    → All IsValid h.upstreams
    → h.next_index < u64
    → select_upstream h clock ≡ (h', some j)
    → (k : ℕ) × (u : Upstream) × (k < length h.upstreams)
      × Takes clock h.next_index h.upstreams k h'.upstreams j u
      × (h'.next_index ≡ (h.next_index + 1) % u64)
select_upstream-some h h' clock j v fits e =
    let (k, u, l, a, counter) = selected_round h h' clock j v fits e in
    (k, u, l, Takes-of clock h.next_index h.upstreams k h'.upstreams j u a, counter)
