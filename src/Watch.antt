-- ===== src/Watch.antt =====
-- watchlist.go: the watch list and how it is discovered.
pub mod Pattern
pub mod Prefix
pub mod Walk
pub mod Genuine
pub mod Idle
pub mod Exact
pub mod Pruned
pub mod Ancestors
pub mod Targets
pub mod Explicit
pub mod Validate
mod Tests
