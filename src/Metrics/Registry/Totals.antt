-- ===== src/Metrics/Registry/Totals.antt =====
-- The total against the routes, and the histogram.
use go_mini_gateway.Common.{
  ℕ, ◌+◌, ◌%◌, ◌^◌, ◌≤◌, ◌<◌, ◌≡◌, refl, Time, Bool, Option, none, some, List, [], ◌∷◌, arith,
  length, map, leb, text_eq, lookup, weight, sum_of, sum_of-insert, count_if,
}
use go_mini_gateway.Metrics.Registry.{
  i64, default_duration_buckets, Bucket, Registry, Record, new_bucket, new_registry, record_bucket,
  bucket_or_new, route_of, status_of, latency_of, record_some,
}
use go_mini_gateway.Metrics.Registry.Summary.{record_all, record_all_lem}

-- The sum of a counter over the routes.
abbrev over_routes : (Bucket → ℕ) → Registry → ℕ
over_routes f r = sum_of (λ e. f e.1) r.routes

weight_new :
    (f : Bucket → ℕ) (o : Option Bucket) → f new_bucket ≡ 0 → weight f o ≡ f (bucket_or_new o)
unfolding bucket_or_new
weight_new f none e = rw e refl
weight_new f (some b) e = refl

-- A counter that each request raises by a number: modulo 2^64 it keeps being the sum over the routes.
module _ (f : Bucket → ℕ) (d : Record → ℕ) (zero_ : f new_bucket ≡ 0)
    (raised : (b : Bucket) (x : Record)
      → f (record_bucket b (status_of x) x.byte_written (latency_of x)) ≡ (f b + d x) % i64) where
  over_routes-record_all :
      (now : Time) (xs : List Record)
      → f (record_all now xs).total ≡ over_routes f (record_all now xs) % i64
  unfolding record_all record_some new_registry
  over_routes-record_all now [] = zero_
  over_routes-record_all now (x ∷ xs) =
      let r = record_all now xs in
      let b = bucket_or_new (lookup text_eq (route_of x) r.routes) in
      let c = record_bucket b (status_of x) x.byte_written (latency_of x) in
      omega (
        arith,
        over_routes-record_all now xs,
        raised r.total x,
        raised b x,
        weight_new f (lookup text_eq (route_of x) r.routes) zero_,
        sum_of-insert text_eq f (route_of x) c r.routes,
      )

-- The requests, the bytes and the latency of the total are the sums over the routes, modulo 2^64.
total-eq-over_routes :
    (now : Time) (xs : List Record)
    → let r = record_all now xs in
      (r.total.requests ≡ over_routes (λ b. b.requests) r % i64)
      × (r.total.bytes_written ≡ over_routes (λ b. b.bytes_written) r % i64)
      × (r.total.total_latency_ns ≡ over_routes (λ b. b.total_latency_ns) r % i64)
unfolding record_bucket new_bucket
total-eq-over_routes now xs = (
  over_routes-record_all (λ b. b.requests) (λ _. 1) refl (λ b x. refl) now xs,
  over_routes-record_all (λ b. b.bytes_written) (λ x. x.byte_written) refl (λ b x. refl) now xs,
  over_routes-record_all (λ b. b.total_latency_ns) latency_of refl (λ b x. refl) now xs,
)

-- Every number is at most the next one, and the last one at most the bound.
abbrev pub IsCumulative : List ℕ → ℕ → Type 0
IsCumulative [] top = Unit
IsCumulative (c ∷ []) top = c ≤ top
IsCumulative (c ∷ d ∷ cs) top = (c ≤ d) × IsCumulative (d ∷ cs) top

count_if-le-length : {A : Type 0} (p : A → Bool) (xs : List A) → count_if p xs ≤ length xs
count_if-le-length p [] = omega arith
count_if-le-length p (x ∷ xs) = ground (arith, count_if-le-length p xs)

count_if_mono :
    (a b : ℕ) (xs : List Record)
    → a ≤ b
    → count_if (λ x. leb (latency_of x) a) xs ≤ count_if (λ x. leb (latency_of x) b) xs
count_if_mono a b [] h = omega arith
count_if_mono a b (x ∷ xs) h = ground (arith, count_if_mono a b xs h)

abbrev IsAscending : List ℕ → Type 0
IsAscending [] = Unit
IsAscending (a ∷ []) = Unit
IsAscending (a ∷ b ∷ bounds) = (a ≤ b) × IsAscending (b ∷ bounds)

counts-IsCumulative :
    (xs : List Record) (bounds : List ℕ)
    → IsAscending bounds
    → length xs < i64
    → IsCumulative
        (map (λ bound. count_if (λ x. leb (latency_of x) bound) xs % i64) bounds)
        (length xs)
counts-IsCumulative xs [] h l = tt
counts-IsCumulative xs (a ∷ []) h l =
    omega (arith, count_if-le-length (λ x. leb (latency_of x) a) xs)
counts-IsCumulative xs (a ∷ b ∷ bounds) (le, h) l = (
  omega (
    arith,
    count_if-le-length (λ x. leb (latency_of x) a) xs,
    count_if-le-length (λ x. leb (latency_of x) b) xs,
    count_if_mono a b xs le,
  ),
  counts-IsCumulative xs (b ∷ bounds) h l,
)

-- Below 2^63 requests, where no count is negative as an int64, the buckets of the histogram of the total are
-- cumulative, and none exceeds the number of requests, which is that of the bucket "+Inf".
pub total-IsCumulative :
    (now : Time) (xs : List Record)
    → length xs < 2 ^ 63
    → let b = (record_all now xs).total in
      IsCumulative b.duration_bucket_counts b.requests × (b.requests ≡ length xs)
total-IsCumulative now xs l =
    let (v, _) = record_all_lem now xs in
    let same : (record_all now xs).total.requests ≡ length xs = omega (arith, v.requests) in
    rw (v.durations, same)
      (counts-IsCumulative xs default_duration_buckets (omega arith) (omega arith), refl)
