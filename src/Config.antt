-- ===== src/Config.antt =====
-- The package internal/config: the configuration, the expansion of environment variables in it, its
-- defaults and its validation.
mod Examples
pub mod Types
pub mod Env
pub mod Expand
pub mod Normalize
pub mod Validate
pub mod Durations
pub mod Load
