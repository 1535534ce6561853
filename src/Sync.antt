-- ===== src/Sync.antt =====
-- src/sync: the decisions of the sync loop, and the loop.
pub mod Decision
pub mod State
pub mod Fetch
pub mod Tick
pub mod Run
mod Tests
