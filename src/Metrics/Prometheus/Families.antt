-- ===== src/Metrics/Prometheus/Families.antt =====
-- `PrometheusText`: the families of the whole process, and those with a line for each route.
use go_mini_gateway.Common.{ℕ, Text, Time, Option, none, some, [], ◌∷◌, ◌++◌, codes}
use go_mini_gateway.Metrics.Registry.{Registry}
use go_mini_gateway.Metrics.Snapshot.{Fraction, Snapshot, snapshot}
use go_mini_gateway.Metrics.Prometheus.{
  concat, format_i64, format_label, sample, in_braces, for_routes, sorted_routes, status_lines,
  sorted_status_codes, family, route_lines, write_histogram,
}

module _ (format_6 format_9 : Fraction → Text) where
  -- The families of the whole process.
  total_families : Snapshot → Text
  unfolding family sample format_i64 status_lines write_histogram format_label
  total_families s =
      let n_uptime = codes "gateway_uptime_seconds" in
      let n_requests = codes "gateway_http_requests_total" in
      let n_bytes = codes "gateway_http_bytes_written_total" in
      let n_avg = codes "gateway_http_request_duration_avg_milliseconds" in
      let n_max = codes "gateway_http_request_duration_max_milliseconds" in
      let n_status = codes "gateway_http_status_requests_total" in
      let n_duration = codes "gateway_http_request_duration_seconds" in
      let t = s.total in
      concat (
        family n_uptime (codes "Gateway process uptime in seconds.") (codes "gauge")
          (sample n_uptime [] (format_6 s.uptime_seconds))
        ∷ family n_requests (codes "Total number of HTTP requests.") (codes "counter")
            (sample n_requests [] (format_i64 t.requests))
        ∷ family n_bytes (codes "Total number of response bytes written.") (codes "counter")
            (sample n_bytes [] (format_i64 t.bytes_written))
        ∷ family n_avg (codes "Average HTTP request duration in milliseconds.") (codes "gauge")
            (sample n_avg [] (format_6 t.avg_latency_ms))
        ∷ family n_max (codes "Maximum observed HTTP request duration in milliseconds.")
            (codes "gauge") (sample n_max [] (format_6 t.max_latency_ms))
        ∷ family n_status (codes "Total number of HTTP requests by status code.") (codes "counter")
            (status_lines (λ status. in_braces (format_label (codes "status") status)) n_status
              t.status_codes (sorted_status_codes t.status_codes))
        ∷ family n_duration (codes "HTTP request duration in seconds.") (codes "histogram")
            (write_histogram format_6 format_9 n_duration [] t.duration_histogram)
        ∷ [])

  -- The families with a line for each route.
  route_families : Snapshot → Text
  unfolding family sample format_i64 status_lines write_histogram format_label sorted_routes
  route_families s =
      let routes = sorted_routes s.routes in
      let n_requests = codes "gateway_route_http_requests_total" in
      let n_bytes = codes "gateway_route_http_bytes_written_total" in
      let n_status = codes "gateway_route_http_status_requests_total" in
      let n_avg = codes "gateway_route_http_request_duration_avg_milliseconds" in
      let n_max = codes "gateway_route_http_request_duration_max_milliseconds" in
      let n_duration = codes "gateway_route_http_request_duration_seconds" in
      concat (
        family n_requests (codes "Total number of HTTP requests by route.") (codes "counter")
          (route_lines n_requests (λ b. format_i64 b.requests) routes)
        ∷ family n_bytes (codes "Total number of response bytes written by route.")
            (codes "counter") (route_lines n_bytes (λ b. format_i64 b.bytes_written) routes)
        ∷ family n_status (codes "Total number of HTTP requests by route and status code.")
            (codes "counter")
            (for_routes
              (λ id b.
                status_lines
                  (λ status. in_braces (
                    concat (
                      format_label (codes "route") id
                      ∷ codes ","
                      ∷ format_label (codes "status") status
                      ∷ [])))
                  n_status b.status_codes (sorted_status_codes b.status_codes))
              routes)
        ∷ family n_avg (codes "Average HTTP request duration by route in milliseconds.")
            (codes "gauge") (route_lines n_avg (λ b. format_6 b.avg_latency_ms) routes)
        ∷ family n_max (codes "Maximum observed HTTP request duration by route in milliseconds.")
            (codes "gauge") (route_lines n_max (λ b. format_6 b.max_latency_ms) routes)
        ∷ family n_duration (codes "HTTP request duration by route in seconds.") (codes "histogram")
            (for_routes
              (λ id b.
                write_histogram format_6 format_9 n_duration ((codes "route", id) ∷ [])
                  b.duration_histogram)
              routes)
        ∷ [])

  -- A nil registry has no text.
  unfoldable pub prometheus_text : (ℕ → Text) → Option Registry → Time → Text
  unfolding total_families route_families snapshot
  prometheus_text duration_string none now = []
  prometheus_text duration_string (some r) now =
      let s = snapshot duration_string r now in total_families s ++ route_families s
