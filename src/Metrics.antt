-- ===== src/Metrics.antt =====
-- metrics.go: `RenderMetrics` and its helpers.
pub mod Text
pub mod Escape
pub mod Decimal
pub mod Render
pub mod Stable
pub mod Read
pub mod Samples
pub mod Scrape
mod Tests
