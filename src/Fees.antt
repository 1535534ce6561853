-- ===== src/Fees.antt =====
-- src/fees.rs: the fee tiers of a projection.
pub mod Tiers
pub mod Snapshot
mod Tests
