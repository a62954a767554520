-- ===== src/Metrics/Snapshot.antt =====
-- The snapshots of internal/metrics/registry.go. A map of a snapshot is the list of its entries, in the
-- order in which they are written. A float64 is kept as the quotient that it rounds, of the bit patterns of
-- int64 numbers; `String` of a duration is a parameter.
use go_mini_gateway.Common.{
  ℕ, zero, suc, ◌+◌, ◌-◌, ◌*◌, ◌/◌, ◌%◌, ◌==◌, Text, Time, second, none, some, List, [], ◌∷◌, ◌++◌,
  map, leb, ltb, ◌&&◌, text_eq, text_leb, codes, lookup, or_zero, sort, itoa, trim_right, drop,
  if◌then◌else◌,
}
use go_mini_gateway.Metrics.Registry.{default_duration_buckets, Bucket, Registry}

pub record Fraction : Type 0 where
  pub numerator : ℕ
  pub denominator : ℕ

pub record HistogramSnapshot : Type 0 where
  pub buckets : List (Text × ℕ)
  pub sum_seconds : Fraction
  pub count : ℕ

pub record BucketSnapshot : Type 0 where
  pub requests : ℕ
  pub bytes_written : ℕ
  pub avg_latency_ms : Fraction
  pub max_latency_ms : Fraction
  pub status_codes : List (Text × ℕ)
  pub duration_histogram : HistogramSnapshot

pub record Snapshot : Type 0 where
  pub uptime : Text
  pub uptime_seconds : Fraction
  pub total : BucketSnapshot
  pub routes : List (Text × BucketSnapshot)

-- Nine decimals with no zeros at the end, behind a point; nothing for a whole number.
decimals : ℕ → Text
unfolding itoa drop
decimals zero = []
decimals (suc rest) = b'.' ∷ trim_right (λ c. c == b'0') (drop 1 (itoa (second + suc rest)))

-- `strconv.FormatFloat(value, 'f', -1, 64)`, for a bound in nanoseconds: its shortest decimal in seconds.
unfoldable pub format_bucket_boundary : ℕ → Text
unfolding decimals itoa trim_right
format_bucket_boundary bound = itoa (bound / second) ++ decimals (bound % second)

-- `buckets[formatBucketBoundary(upperBound)] = b.durationBucketCounts[i]`, for each bound.
label_counts : List ℕ → List ℕ → List (Text × ℕ)
unfolding format_bucket_boundary
label_counts (bound ∷ bounds) (c ∷ counts) =
    (format_bucket_boundary bound, c) ∷ label_counts bounds counts
label_counts [] counts = []
label_counts (_ ∷ _) [] = []

abbrev pub infinity : Text
infinity = codes "+Inf"

unfoldable pub snapshot_histogram : Bucket → HistogramSnapshot
unfolding label_counts
snapshot_histogram b = record {
  buckets =
      label_counts default_duration_buckets b.duration_bucket_counts ++ (infinity, b.requests) ∷ [];
  sum_seconds = record { numerator = b.total_latency_ns; denominator = second };
  count = b.requests;
}

-- The average is 0 while there is no request.
avg_latency : Bucket → Fraction
avg_latency b =
    if ltb 0 b.requests && ltb b.requests 9223372036854775808
    then record { numerator = b.total_latency_ns; denominator = b.requests * 1000000 }
    else record { numerator = 0; denominator = 1 }

unfoldable pub snapshot_bucket : Bucket → BucketSnapshot
unfolding snapshot_histogram avg_latency sort itoa
snapshot_bucket b = record {
  requests = b.requests;
  bytes_written = b.bytes_written;
  avg_latency_ms = avg_latency b;
  max_latency_ms = record { numerator = b.max_latency_ns; denominator = 1000000 };
  status_codes =
      map (λ code. (itoa code, or_zero (lookup ◌==◌ code b.status_codes)))
        (sort leb (map (λ e. e.0) b.status_codes));
  duration_histogram = snapshot_histogram b;
}

-- `snapshotBucket(r.routes[routeID])`, for a key of the map.
entry : List (Text × Bucket) → Text → List (Text × BucketSnapshot)
unfolding snapshot_bucket lookup text_eq
entry routes id = elim (lookup text_eq id routes) [
  | none ↦ []
  | some b ↦ (id, snapshot_bucket b) ∷ []
]

pub entries : List (Text × Bucket) → List Text → List (Text × BucketSnapshot)
unfolding entry
entries routes [] = []
entries routes (id ∷ ids) = entry routes id ++ entries routes ids

-- `now` is the time of the call; the clock does not run backwards.
unfoldable pub snapshot : (ℕ → Text) → Registry → Time → Snapshot
unfolding entries sort snapshot_bucket
snapshot duration_string r now =
    let uptime = now - r.start_time in
    record {
      uptime = duration_string uptime;
      uptime_seconds = record { numerator = uptime; denominator = second };
      total = snapshot_bucket r.total;
      routes = entries r.routes (sort text_leb (map (λ e. e.0) r.routes));
    }
