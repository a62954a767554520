-- ===== src/Proxy/Upstream/Kept.antt =====
-- What the selection leaves of each upstream.
use mathlib.Core.Path.{subst}
use native.Mathlib.Decide.{ℕ_discrete}
use go_mini_gateway.Common.{
  ℕ, zero, suc, ◌+◌, ◌<◌, ◌≡◌, inl, inr, refl, sym, ap, ◌∙◌, Text, Time, Option, none, some, List,
  arith, length, get_elem?, set, length-set, get_elem?-set_self, get_elem?-set_ne, lt_of_get_elem?,
  Option-cases, Bool-cases, ◌==◌,
}
use go_mini_gateway.Proxy.Breaker
use go_mini_gateway.Proxy.Breaker.{CircuitBreaker}
use go_mini_gateway.Proxy.Breaker.Invariant.{record_success-IsValid, record_failure-IsValid}
use go_mini_gateway.Proxy.Upstream.{
  Upstream, Handler, try_acquire, record_success, record_failure, index_of, map_option, select_from,
  select_upstream,
}
use go_mini_gateway.Proxy.Upstream.Acquire.{HasValidBreaker, IsValid, try_acquire-IsValid}

-- The same upstream, later.
pub record IsKept (u v : Upstream) : Type 0 where
  pub id : v.id ≡ u.id
  pub url : v.url ≡ u.url
  pub valid : IsValid u → IsValid v

IsKept-refl : (u : Upstream) → IsKept u u
IsKept-refl u = record { id = refl; url = refl; valid = λ v. v }

try_acquire-IsKept : (u : Upstream) (now : Time) → IsKept u (try_acquire u now).0
unfolding try_acquire
try_acquire-IsKept u now = record {
  id = ground arith;
  url = ground arith;
  valid = λ v. try_acquire-IsValid u now v;
}

success-IsValid :
    (b : Option CircuitBreaker) (now : Time)
    → HasValidBreaker b
    → HasValidBreaker (map_option (λ c. Breaker.record_success c now) b)
success-IsValid none now v = tt
success-IsValid (some c) now v = record_success-IsValid c now v

failure-IsValid :
    (b : Option CircuitBreaker) (now : Time) (reason : Text)
    → HasValidBreaker b
    → HasValidBreaker (map_option (λ c. Breaker.record_failure c now reason) b)
failure-IsValid none now reason v = tt
failure-IsValid (some c) now reason v = record_failure-IsValid c now reason v

pub record_success-IsKept : (u : Upstream) (now : Time) → IsKept u (record_success u now)
unfolding record_success
record_success-IsKept u now = record {
  id = refl;
  url = refl;
  valid = λ v. success-IsValid u.circuit_breaker now v;
}

pub record_failure-IsKept :
    (u : Upstream) (now : Time) (reason : Text) → IsKept u (record_failure u now reason)
unfolding record_failure
record_failure-IsKept u now reason = record {
  id = refl;
  url = refl;
  valid = λ v. failure-IsValid u.circuit_breaker now reason v;
}

-- The same upstreams in the same order.
pub record AreKept (us vs : List Upstream) : Type 0 where
  pub count : length vs ≡ length us
  pub each :
      (j : ℕ) (v : Upstream)
      → get_elem? vs j ≡ some v
      → (u : Upstream) × (get_elem? us j ≡ some u) × IsKept u v

pub AreKept-refl : (us : List Upstream) → AreKept us us
AreKept-refl us = record { count = refl; each = λ j v e. (v, e, IsKept-refl v) }

pub AreKept-trans : (us vs ws : List Upstream) → AreKept us vs → AreKept vs ws → AreKept us ws
AreKept-trans us vs ws h k = record {
  count = k.count ∙ h.count;
  each = λ j w e.
      let (v, ev, kv) = k.each j w e in
      let (u, eu, ku) = h.each j v ev in
      (
        u,
        eu,
        record { id = kv.id ∙ ku.id; url = kv.url ∙ ku.url; valid = λ x. kv.valid (ku.valid x) },
      );
}

pub AreKept-set :
    (us : List Upstream) (j : ℕ) (u v : Upstream)
    → get_elem? us j ≡ some u
    → IsKept u v
    → AreKept us (set us j v)
AreKept-set us j u v e k = record {
  count = length-set us j v;
  each = λ i w h. elim (ℕ_discrete i j) [
    | yes same ↦
        let found : get_elem? (set us j v) j ≡ some w =
          sym (ap (get_elem? (set us j v)) same) ∙ h in
        let self = get_elem?-set_self us j v (lt_of_get_elem? us j e) in
        let is_v : v ≡ w = cc (self, found) in
        (u, ap (get_elem? us) same ∙ e, subst (IsKept u) is_v k)
    | no other ↦ (w, sym (get_elem?-set_ne us v (λ x. other (sym x))) ∙ h, IsKept-refl w)
  ];
}

select_from-AreKept :
    (clock : ℕ → Time) (start count rounds i : ℕ) (us : List Upstream)
    → AreKept us (select_from clock start count rounds i us).0
      × ((j : ℕ) → (select_from clock start count rounds i us).1 ≡ some j → j < length us)
unfolding select_from
select_from-AreKept clock start count zero i us = (AreKept-refl us, λ j h. cc)
select_from-AreKept clock start count (suc rounds) i us =
    let index = index_of start count i in
    elim (Option-cases (get_elem? us index)) [
      | inl e ↦ rw e (AreKept-refl us, λ j h. cc)
      | inr (u, e) ↦
          let set_kept =
            AreKept-set us index u (try_acquire u (clock i)).0 e (try_acquire-IsKept u (clock i)) in
          elim (Bool-cases (try_acquire u (clock i)).1) [
            | inl accepted ↦
                rw (e, accepted)
                  (
                    set_kept,
                    λ j h.
                        let same : index ≡ j = cc (h) in
                        subst (λ k. k < length us) same (lt_of_get_elem? us index e),
                  )
            | inr refused ↦
                let (kept, inside) =
                  select_from-AreKept clock start count rounds (i + 1)
                    (set us index (try_acquire u (clock i)).0) in
                rw (e, refused)
                  (
                    AreKept-trans us _ _ set_kept kept,
                    λ j h.
                        omega (arith, inside j h, length-set us index (try_acquire u (clock i)).0),
                  )
          ]
    ]

-- The selection leaves the same upstreams, and what it selects is one of them.
pub select_upstream-AreKept :
    (h : Handler) (clock : ℕ → Time)
    → AreKept h.upstreams (select_upstream h clock).0.upstreams
      × ((j : ℕ) → (select_upstream h clock).1 ≡ some j → j < length h.upstreams)
unfolding select_upstream
select_upstream-AreKept h clock = elim (Bool-cases (length h.upstreams == 0)) [
  | inl empty ↦ rw (empty, select_upstream) (AreKept-refl h.upstreams, λ j e. cc)
  | inr not_empty ↦ rw (not_empty, select_upstream) (select_from-AreKept clock _ _ _ 0 h.upstreams)
]
