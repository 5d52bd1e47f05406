-- ===== src/Miner.antt =====
-- crates/ondris-miner/src/main.rs: the CPU miner.
pub mod Search
pub mod Work
pub mod Submission
pub mod Acceptance
