-- ===== src/Concurrency.antt =====
-- The package internal/concurrency: a limiter is a channel of `capacity` places, which holds one
-- element for each request in flight.
mod Examples
pub mod Limiter
pub mod Middleware
pub mod Interleaving
