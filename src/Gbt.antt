-- ===== src/Gbt.antt =====
-- src/gbt.rs: the projection of the mempool into blocks, and the theorems about it.
pub mod Audit
pub mod Ancestors
pub mod Heap
pub mod Pack
pub mod Project
pub mod Tests
