-- ===== src/Metrics.antt =====
-- The package internal/metrics: counters of the requests, in total and by route, and their text form.
pub mod Registry
pub mod Snapshot
pub mod Prometheus
pub mod Order
pub mod Examples
