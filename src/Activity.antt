-- ===== src/Activity.antt =====
-- activity.go: the nodes of the streams, and when each last collected or distributed a file.
pub mod Nodes
pub mod Delay
pub mod Collector
pub mod Distributor
pub mod TraceLine
pub mod ScanAll
pub mod Keys
pub mod Schedules
pub mod AnyOrder
pub mod Latest
pub mod Traces
pub mod Written
pub mod Outcome
mod LineTests
mod Tests
