-- ===== src/Metrics/Prometheus.antt =====
-- internal/metrics/prometheus.go. `%.6f` and `%.9f` of a float64 are parameters. A map of labels is the
-- list of its entries.
pub mod Labels
pub mod Families
use go_mini_gateway.Common.{
  ℕ, zero, suc, ◌+◌, ◌-◌, ◌==◌, Text, Time, Bool, true, false, Option, none, some, List, [], ◌∷◌,
  ◌++◌, map, length, leb, ltb, text_eq, text_leb, codes, lookup, or_zero, sort, itoa, is_empty,
  retain, not, if◌then◌else◌,
}
use go_mini_gateway.Metrics.Registry.{i64, default_duration_buckets, Registry}
use go_mini_gateway.Metrics.Snapshot.{
  Fraction, HistogramSnapshot, BucketSnapshot, Snapshot, format_bucket_boundary, infinity, snapshot,
}

-- The texts one behind another.
abbrev pub concat : List Text → Text
concat [] = []
concat (t ∷ ts) = t ++ concat ts

-- `%d` of an int64
unfoldable pub format_i64 : ℕ → Text
unfolding itoa
format_i64 n = if ltb n 9223372036854775808 then itoa n else b'-' ∷ itoa (i64 - n)

-- `strings.ReplaceAll(s, "c", by)`
unfoldable pub replace_all : ℕ → Text → Text → Text
replace_all c by [] = []
replace_all c by (d ∷ s) = (if d == c then by else d ∷ []) ++ replace_all c by s

unfoldable pub escape_label_value : Text → Text
unfolding replace_all
escape_label_value value =
    replace_all b'"' (b'\\' ∷ b'"' ∷ [])
      (replace_all b'\n' (b'\\' ∷ b'n' ∷ []) (replace_all b'\\' (b'\\' ∷ b'\\' ∷ []) value))

-- `key="value"`, with the value escaped.
unfoldable pub format_label : Text → Text → Text
unfolding escape_label_value
format_label key value = concat (key ∷ codes "=\"" ∷ escape_label_value value ∷ codes "\"" ∷ [])

-- `strings.Join(parts, ",")`
join : List Text → Text
join [] = []
join (t ∷ []) = t
join (t ∷ u ∷ ts) = t ++ (b',' ∷ join (u ∷ ts))

-- The label's value, for a key of the map.
value_of : Option Text → Text
value_of none = []
value_of (some v) = v

unfoldable pub format_labels : List (Text × Text) → Text
unfolding join format_label sort value_of lookup text_eq
format_labels [] = []
format_labels (l ∷ ls) =
    let labels = l ∷ ls in
    concat (
      codes "{"
      ∷ join (
          map (λ key. format_label key (value_of (lookup text_eq key labels)))
            (sort text_leb (map (λ e. e.0) labels)))
      ∷ codes "}"
      ∷ [])

-- The place of the bound with this label, or the number of the bounds.
label_place : Text → List ℕ → ℕ
unfolding format_bucket_boundary text_eq
label_place label [] = 0
label_place label (bound ∷ bounds) =
    let rest = label_place label bounds in
    if text_eq label (format_bucket_boundary bound) then 0 else suc rest

unfoldable pub bucket_label_value : Text → ℕ
unfolding label_place
bucket_label_value label = label_place label default_duration_buckets

unfoldable pub sorted_histogram_bucket_labels : List (Text × ℕ) → List Text
unfolding sort bucket_label_value text_eq
sorted_histogram_bucket_labels buckets =
    sort (λ a b. leb (bucket_label_value a) (bucket_label_value b))
      (retain (λ label. not (text_eq label infinity)) (map (λ e. e.0) buckets))
    ++ infinity ∷ []

unfoldable pub write_help : Text → Text → Text
write_help name help = concat (codes "# HELP " ∷ name ∷ codes " " ∷ help ∷ codes "\n" ∷ [])

unfoldable pub write_type : Text → Text → Text
write_type name metric_type =
    concat (codes "# TYPE " ∷ name ∷ codes " " ∷ metric_type ∷ codes "\n" ∷ [])

-- One line: the name, the labels in braces or nothing, and the value.
unfoldable pub sample : Text → Text → Text → Text
sample name labels value = concat (name ∷ labels ∷ codes " " ∷ value ∷ codes "\n" ∷ [])

-- The lines of the buckets, for the labels given. `labels` has no entry "le".
bucket_lines : Text → List (Text × Text) → List (Text × ℕ) → List Text → Text
unfolding sample format_labels format_i64 lookup text_eq
bucket_lines name labels buckets [] = []
bucket_lines name labels buckets (bound ∷ bounds) =
    sample (name ++ codes "_bucket") (format_labels (labels ++ (codes "le", bound) ∷ []))
      (format_i64 (or_zero (lookup text_eq bound buckets)))
    ++ bucket_lines name labels buckets bounds

-- `{route="..."}` in the format strings.
abbrev in_braces : Text → Text
in_braces t = concat (codes "{" ∷ t ∷ codes "}" ∷ [])

abbrev route_label : Text → Text
route_label id = in_braces (format_label (codes "route") id)

-- For each route of a list.
abbrev for_routes : (Text → BucketSnapshot → Text) → List (Text × BucketSnapshot) → Text
for_routes f [] = []
for_routes f ((id, b) ∷ routes) = f id b ++ for_routes f routes

-- `routeID, snapshot.Routes[routeID]` for a key of the map.
found : List (Text × BucketSnapshot) → Text → List (Text × BucketSnapshot)
unfolding lookup text_eq
found routes id = elim (lookup text_eq id routes) [ none ↦ [] | some b ↦ (id, b) ∷ [] ]

found_all : List (Text × BucketSnapshot) → List Text → List (Text × BucketSnapshot)
unfolding found
found_all routes [] = []
found_all routes (id ∷ ids) = found routes id ++ found_all routes ids

-- The routes in the order of `sortedRouteIDs`.
unfoldable pub sorted_routes : List (Text × BucketSnapshot) → List (Text × BucketSnapshot)
unfolding found_all sort
sorted_routes routes = found_all routes (sort text_leb (map (λ e. e.0) routes))

-- For each status code, in the order of their texts.
status_lines : (Text → Text) → Text → List (Text × ℕ) → List Text → Text
unfolding sample format_i64 lookup text_eq
status_lines labels name statuses [] = []
status_lines labels name statuses (status ∷ rest) =
    sample name (labels status) (format_i64 (or_zero (lookup text_eq status statuses)))
    ++ status_lines labels name statuses rest

abbrev sorted_status_codes : List (Text × ℕ) → List Text
sorted_status_codes statuses = sort text_leb (map (λ e. e.0) statuses)

-- HELP and TYPE, the lines, and what stands behind them.
unfoldable pub family : Text → Text → Text → Text → Text
unfolding write_help write_type
family name help metric_type lines =
    concat (write_help name help ∷ write_type name metric_type ∷ lines ∷ codes "\n" ∷ [])

abbrev route_lines : Text → (BucketSnapshot → Text) → List (Text × BucketSnapshot) → Text
route_lines name value = for_routes (λ id b. sample name (route_label id) (value b))

module _ (format_6 format_9 : Fraction → Text) where
  unfoldable pub write_histogram : Text → List (Text × Text) → HistogramSnapshot → Text
  unfolding bucket_lines sorted_histogram_bucket_labels sample format_labels format_i64
  write_histogram name labels h = concat (
      bucket_lines name labels h.buckets (sorted_histogram_bucket_labels h.buckets)
      ∷ sample (name ++ codes "_sum") (format_labels labels) (format_9 h.sum_seconds)
      ∷ sample (name ++ codes "_count") (format_labels labels) (format_i64 h.count)
      ∷ [])
