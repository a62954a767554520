-- ===== src/Proxy.antt =====
-- The package internal/proxy: the state that each upstream keeps, the selection of an upstream, and
-- the request and response paths of the handler.
pub mod Outcome
pub mod Breaker
pub mod Passive
pub mod Upstream
pub mod Snapshots
pub mod Build
pub mod Handler
