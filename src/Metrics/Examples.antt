-- ===== src/Metrics/Examples.antt =====
-- The theorems on the metrics at three requests to two routes.
use go_mini_gateway.Common.{
  ℕ, ◌≡◌, refl, Text, none, some, List, [], ◌∷◌, ◌++◌, codes, pos, negsuc, length, insert, lookup,
  text_eq, false, arith,
}
use go_mini_gateway.Metrics.Registry.{
  Record, record_bucket, record_some, record_request, new_bucket, new_registry,
}
use go_mini_gateway.Metrics.Registry.Summary.{
  record_all, of_route, IsSummary, IsRouteSummary, record_all_lem,
}
use go_mini_gateway.Metrics.Registry.Totals.{IsCumulative, total-IsCumulative}
use go_mini_gateway.Metrics.Snapshot.{format_bucket_boundary}
use go_mini_gateway.Metrics.Prometheus.{format_label, escape_label_value}
use go_mini_gateway.Metrics.Prometheus.Labels.{read_value, read_value-format_label}

-- Within 5 ms; above it, with no status; and with no route.
abbrev request_a : Record
request_a = record {
  route_id = codes "a";
  status_code = pos 404;
  byte_written = 12;
  latency = pos 5000000;
}

abbrev request_b : Record
request_b = record {
  route_id = codes "b";
  status_code = pos 0;
  byte_written = 7;
  latency = pos 5000001;
}

abbrev request_c : Record
request_c = record {
  route_id = [];
  status_code = negsuc 0;
  byte_written = 0;
  latency = pos 20000000000;
}

abbrev requests : List Record
requests = request_c ∷ request_b ∷ request_a ∷ []

counters_test :
    let b = (record_all 0 requests).total in
    (b.requests ≡ 3)
    × (b.bytes_written ≡ 19)
    × (b.max_latency_ns ≡ 20000000000)
    × (b.status_codes ≡ (404, 1) ∷ (200, 2) ∷ [])
    × (b.duration_bucket_counts ≡ 0 ∷ 1 ∷ 2 ∷ 2 ∷ 2 ∷ 2 ∷ 2 ∷ 2 ∷ 2 ∷ 2 ∷ 2 ∷ 2 ∷ [])
unfolding record_all record_some record_bucket new_registry new_bucket insert lookup
counters_test = (refl, refl, refl, refl, refl)

nil_test : record_request none request_a ≡ none
unfolding record_request
nil_test = refl

boundary_test :
    (format_bucket_boundary 1000000 ≡ codes "0.001")
    × (format_bucket_boundary 2500000000 ≡ codes "2.5")
    × (format_bucket_boundary 10000000000 ≡ codes "10")
unfolding format_bucket_boundary
boundary_test = (refl, refl, refl)

escape_test : escape_label_value (codes "a\"b\\c\n") ≡ codes "a\\\"b\\\\c\\n"
unfolding escape_label_value
escape_test = refl

record_all_lem_example :
    IsSummary requests (record_all 0 requests).total
    × ((id : Text)
        → IsRouteSummary (of_route id requests) (lookup text_eq id (record_all 0 requests).routes))
record_all_lem_example = record_all_lem 0 requests

total-IsCumulative_example :
    let b = (record_all 0 requests).total in
    IsCumulative b.duration_bucket_counts b.requests × (b.requests ≡ length requests)
total-IsCumulative_example = total-IsCumulative 0 requests (omega arith)

read_value-format_label_example :
    (t : Text) × (format_label (codes "route") (codes "a\"b\\") ++ codes "} 1"
      ≡ codes "route" ++ (codes "=\"" ++ t))
    × (read_value t [] false ≡ some (codes "a\"b\\", codes "} 1"))
read_value-format_label_example =
    read_value-format_label (codes "route") (codes "a\"b\\") (codes "} 1")

abbrev no_text : ℕ → Text
no_text _ = []
