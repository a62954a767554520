-- ===== src/Metrics/Registry.antt =====
-- internal/metrics/registry.go. An int64 is its bit pattern, a number below 2^64. The maximum is compared
-- as it stands, since a latency is never negative there. A bound of the histogram is kept in nanoseconds: a
-- number of nanoseconds divided by 1e9 and rounded to a float64 is at most the float64 nearest to the bound
-- exactly when the numbers are so ordered. A float64 of a snapshot is kept as the quotient that it rounds.
pub mod Summary
pub mod Totals
use go_mini_gateway.Common.{
  ℕ, zero, suc, ◌+◌, ◌*◌, ◌%◌, ◌==◌, ℤ, pos, pos_part, leb_ℤ, Text, Time, second, Bool, true, false,
  Option, none, some, List, [], ◌∷◌, is_empty, ltb, leb, text_eq, codes, lookup, insert, itoa,
  if◌then◌else◌,
}

-- The values of an int64.
abbrev pub i64 : ℕ
i64 = 18446744073709551616

-- `defaultDurationBucketsSeconds`
abbrev pub default_duration_buckets : List ℕ
default_duration_buckets =
    1000000 ∷ 5000000 ∷ 10000000 ∷ 25000000 ∷ 50000000 ∷ 100000000 ∷ 250000000 ∷ 500000000
    ∷ 1000000000 ∷ 2500000000 ∷ 5000000000 ∷ 10000000000 ∷ []

pub record Bucket : Type 0 where
  pub requests : ℕ
  pub bytes_written : ℕ
  pub total_latency_ns : ℕ
  pub max_latency_ns : ℕ
  pub status_codes : List (ℕ × ℕ)
  pub duration_bucket_counts : List ℕ

pub record Registry : Type 0 where
  pub start_time : Time
  pub total : Bucket
  pub routes : List (Text × Bucket)

pub record Record : Type 0 where
  pub route_id : Text
  pub status_code : ℤ
  pub byte_written : ℕ
  pub latency : ℤ

zeros : List ℕ → List ℕ
zeros [] = []
zeros (_ ∷ bounds) = 0 ∷ zeros bounds

unfoldable pub new_bucket : Bucket
unfolding zeros
new_bucket = record {
  requests = 0;
  bytes_written = 0;
  total_latency_ns = 0;
  max_latency_ns = 0;
  status_codes = [];
  duration_bucket_counts = zeros default_duration_buckets;
}

unfoldable pub new_registry : Time → Registry
new_registry now = record { start_time = now; total = new_bucket; routes = [] }

or_new : Option ℕ → ℕ
or_new none = 0
or_new (some n) = n

-- `b.statusCodes[statusCode]++`
count_status : ℕ → List (ℕ × ℕ) → List (ℕ × ℕ)
unfolding or_new
count_status status m = insert ◌==◌ status ((or_new (lookup ◌==◌ status m) + 1) % i64) m

-- The loop over the bounds.
count_duration : ℕ → List ℕ → List ℕ → List ℕ
count_duration latency_ns (bound ∷ bounds) (c ∷ counts) =
    (if leb latency_ns bound then (c + 1) % i64 else c) ∷ count_duration latency_ns bounds counts
count_duration latency_ns [] counts = counts
count_duration latency_ns (_ ∷ _) [] = []

unfoldable pub record_bucket : Bucket → ℕ → ℕ → ℕ → Bucket
unfolding count_status count_duration
record_bucket b status_code bytes_written latency_ns = record {
  requests = (b.requests + 1) % i64;
  bytes_written = (b.bytes_written + bytes_written) % i64;
  total_latency_ns = (b.total_latency_ns + latency_ns) % i64;
  max_latency_ns = if ltb b.max_latency_ns latency_ns then latency_ns else b.max_latency_ns;
  status_codes = count_status status_code b.status_codes;
  duration_bucket_counts =
      count_duration latency_ns default_duration_buckets b.duration_bucket_counts;
}

-- The route's bucket, a new one if there is none.
bucket_or_new : Option Bucket → Bucket
bucket_or_new none = new_bucket
bucket_or_new (some b) = b

-- What `Record` does with its argument first: the route, the status and the latency that it counts.
abbrev pub route_of : Record → Text
route_of x = if is_empty x.route_id then codes "unknown" else x.route_id

abbrev pub status_of : Record → ℕ
status_of x = if leb_ℤ x.status_code (pos 0) then 200 else pos_part x.status_code

abbrev pub latency_of : Record → ℕ
latency_of x = pos_part x.latency

unfoldable pub record_some : Registry → Record → Registry
unfolding bucket_or_new
record_some r x =
    let b = bucket_or_new (lookup text_eq (route_of x) r.routes) in
    record r {
      total = record_bucket r.total (status_of x) x.byte_written (latency_of x);
      routes =
          insert text_eq (route_of x) (record_bucket b (status_of x) x.byte_written (latency_of x))
            r.routes;
    }

-- A nil registry is none.
unfoldable pub record_request : Option Registry → Record → Option Registry
unfolding record_some
record_request none x = none
record_request (some r) x = some (record_some r x)
