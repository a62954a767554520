-- ===== src/Metrics/Registry/Summary.antt =====
-- What the counters say about the requests that were recorded.
use mathlib.Core.Path.{subst}
use go_mini_gateway.Common.{
  ℕ, ◌+◌, ◌%◌, ◌≡◌, ◌≢◌, ◌==◌, ==_iff, inl, inr, refl, ap, ◌∙◌, Text, Time, Option, none, some,
  List, [], ◌∷◌, arith, length, map, ltb, leb, text_eq, text_eq_iff, lookup, insert, lookup-insert,
  or_zero, sum_of, retain, count_if, Bool-cases, if◌then◌else◌,
}
use go_mini_gateway.Metrics.Registry.{
  i64, default_duration_buckets, Bucket, Registry, Record, zeros, new_bucket, new_registry,
  count_status, count_duration, or_new, record_bucket, bucket_or_new, route_of, status_of,
  latency_of, record_some,
}

-- The registry behind the requests of a list, whose last one came first.
unfoldable pub record_all : Time → List Record → Registry
record_all now [] = new_registry now
record_all now (x ∷ xs) = record_some (record_all now xs) x

abbrev pub max_of : (Record → ℕ) → List Record → ℕ
max_of f [] = 0
max_of f (x ∷ xs) = if ltb (max_of f xs) (f x) then f x else max_of f xs

-- The counters of a bucket are the number of the requests, their sums and maximum, the numbers of those with
-- each status, and of those within each bound, modulo 2^64.
pub record IsSummary (xs : List Record) (b : Bucket) : Type 0 where
  pub requests : b.requests ≡ length xs % i64
  pub bytes : b.bytes_written ≡ sum_of (λ x. x.byte_written) xs % i64
  pub latency : b.total_latency_ns ≡ sum_of latency_of xs % i64
  pub max_latency : b.max_latency_ns ≡ max_of latency_of xs
  pub statuses :
      (status : ℕ)
      → or_zero (lookup ◌==◌ status b.status_codes) ≡ count_if (λ x. status_of x == status) xs % i64
  pub durations :
      b.duration_bucket_counts
      ≡ map (λ bound. count_if (λ x. leb (latency_of x) bound) xs % i64) default_duration_buckets

or_new-eq : (o : Option ℕ) → or_new o ≡ or_zero o
unfolding or_new
or_new-eq none = refl
or_new-eq (some n) = refl

count_status_lem :
    (status : ℕ) (m : List (ℕ × ℕ)) (other : ℕ)
    → or_zero (lookup ◌==◌ other (count_status status m)) ≡ (
        if status == other
        then (or_zero (lookup ◌==◌ status m) + 1) % i64
        else or_zero (lookup ◌==◌ other m))
unfolding count_status
count_status_lem status m other =
    rw
      (
        lookup-insert ◌==◌ ==_iff status other ((or_new (lookup ◌==◌ status m) + 1) % i64) m,
        or_new-eq,
      )
      (ground arith)

count_duration_lem :
    (x : Record) (xs : List Record) (bounds : List ℕ)
    → count_duration
        (latency_of x)
        bounds
        (map (λ bound. count_if (λ y. leb (latency_of y) bound) xs % i64) bounds)
      ≡ map (λ bound. count_if (λ y. leb (latency_of y) bound) (x ∷ xs) % i64) bounds
unfolding count_duration
count_duration_lem x xs [] = refl
count_duration_lem x xs (bound ∷ bounds) =
    let ih = count_duration_lem x xs bounds in
    rw ih (elim (Bool-cases (leb (latency_of x) bound)) [
      | inl within ↦ rw within (cons (omega arith))
      | inr above ↦ rw above (cons (omega arith))
    ])
  where
    cons : {c d : ℕ} {cs : List ℕ} → c ≡ d → c ∷ cs ≡ d ∷ cs
    cons e = cc

status_step :
    (x : Record) (xs : List Record) (m : List (ℕ × ℕ))
    → ((status : ℕ)
        → or_zero (lookup ◌==◌ status m) ≡ count_if (λ y. status_of y == status) xs % i64)
    → (status : ℕ)
    → or_zero (lookup ◌==◌ status (count_status (status_of x) m))
      ≡ count_if (λ y. status_of y == status) (x ∷ xs) % i64
status_step x xs m h status =
    rw (count_status_lem (status_of x) m status) (elim (Bool-cases (status_of x == status)) [
      | inl same ↦
          let e : status_of x ≡ status = (==_iff _ _).0 same in rw (same, e, h status) (omega arith)
      | inr other ↦ rw (other, h status) (omega arith)
    ])

IsSummary-record_bucket :
    (x : Record) (xs : List Record) (b : Bucket)
    → IsSummary xs b
    → IsSummary (x ∷ xs) (record_bucket b (status_of x) x.byte_written (latency_of x))
unfolding record_bucket
IsSummary-record_bucket x xs b v = record {
  requests = omega (arith, v.requests);
  bytes = omega (arith, v.bytes);
  latency = omega (arith, v.latency);
  max_latency = rw v.max_latency refl;
  statuses = status_step x xs b.status_codes v.statuses;
  durations =
      ap (count_duration (latency_of x) default_duration_buckets) v.durations
      ∙ count_duration_lem x xs default_duration_buckets;
}

new-IsSummary : IsSummary [] new_bucket
unfolding new_bucket lookup zeros
new-IsSummary = record {
  requests = refl;
  bytes = refl;
  latency = refl;
  max_latency = refl;
  statuses = λ status. refl;
  durations = refl;
}

-- The requests that are counted for a route.
abbrev pub of_route : Text → List Record → List Record
of_route id xs = retain (λ x. text_eq (route_of x) id) xs

-- A route has a bucket exactly when a request was recorded for it, and the bucket counts those requests.
abbrev pub IsRouteSummary : List Record → Option Bucket → Type 0
IsRouteSummary own none = own ≡ []
IsRouteSummary own (some b) = (own ≢ []) × IsSummary own b

IsSummary-bucket_or_new :
    (id : Text) (xs : List Record) (o : Option Bucket)
    → IsRouteSummary (of_route id xs) o
    → IsSummary (of_route id xs) (bucket_or_new o)
unfolding bucket_or_new
IsSummary-bucket_or_new id xs none e = rw e new-IsSummary
IsSummary-bucket_or_new id xs (some b) (n, v) = v

-- The bucket of a route behind one more request.
after :
    (id : Text) (x : Record) (xs : List Record) (routes : List (Text × Bucket)) (c : Bucket)
    → ((other : Text) → IsRouteSummary (of_route other xs) (lookup text_eq other routes))
    → IsSummary (x ∷ of_route (route_of x) xs) c
    → IsRouteSummary
        (of_route id (x ∷ xs))
        (lookup text_eq id (insert text_eq (route_of x) c routes))
after id x xs routes c h v =
    rw (lookup-insert text_eq text_eq_iff (route_of x) id c routes)
      (elim (Bool-cases (text_eq (route_of x) id)) [
        | inl same ↦
            let e : route_of x ≡ id = (text_eq_iff _ _).0 same in
            rw same (λ z. cc, subst (λ t. IsSummary (x ∷ of_route t xs) c) e v)
        | inr other ↦ rw other (h id)
      ])

-- Behind any requests, the total counts all of them, and each route's bucket those of the route; a route
-- that no request was recorded for has no bucket.
pub record_all_lem :
    (now : Time) (xs : List Record)
    → IsSummary xs (record_all now xs).total
      × ((id : Text)
          → IsRouteSummary (of_route id xs) (lookup text_eq id (record_all now xs).routes))
unfolding record_all record_some new_registry lookup
record_all_lem now [] = (new-IsSummary, λ id. refl)
record_all_lem now (x ∷ xs) =
    let (t, h) = record_all_lem now xs in
    (
      IsSummary-record_bucket x xs _ t,
      λ id. after id x xs _ _ h (
          IsSummary-record_bucket x (of_route (route_of x) xs) _
            (IsSummary-bucket_or_new (route_of x) xs _ (h (route_of x)))),
    )
