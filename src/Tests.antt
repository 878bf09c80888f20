-- ===== src/Tests.antt =====
-- Small tables on which the theorems are applied.
pub mod Samples
pub mod Queue
pub mod Board
pub mod Chunks
pub mod Decisions
pub mod Fleet
pub mod Index
pub mod Remote
pub mod Access
pub mod Console
pub mod Runs
pub mod Objects
pub mod Watches
pub mod Reviews
pub mod Deletions
pub mod Releases
