-- ===== src/Cleanup.antt =====
-- api/handlers/cleanup_handlers.go: the cleanup of Docker hosts by jobs.
pub mod Output
pub mod Sizes
pub mod Prune
pub mod Jobs
pub mod AllHosts
pub mod Handlers
mod Tests
