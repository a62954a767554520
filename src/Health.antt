-- ===== src/Health.antt =====
-- The package internal/health: the active health checker of an upstream.
mod Examples
pub mod Checker
pub mod Middleware
pub mod Laws
pub mod Atomics
