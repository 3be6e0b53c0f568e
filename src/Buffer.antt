-- ===== src/Buffer.antt =====
-- buffer.go: the files that wait in the source directories of the collector nodes.
pub mod Count
pub mod Resolve
pub mod ScanAll
pub mod Exact
pub mod AnyOrder
pub mod Total
pub mod Settings
mod ConfigTests
mod Tests
