-- ===== src/Server.antt =====
-- The package internal/server: the runtime that a configuration gives, its exchange by a reload, and what
-- stands around the handlers of the routes.
pub mod Outcome
pub mod Recorder
pub mod RouteContext
pub mod AccessLog
pub mod Options
pub mod Routes
pub mod Runtime
pub mod Admin
pub mod System
pub mod Lifecycle
pub mod Handlers
mod Sample
mod Examples
pub mod Auth
pub mod Reload
pub mod ReloadableHandler
pub mod Process
pub mod Serving
