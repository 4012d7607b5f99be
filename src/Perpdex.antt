-- ===== src/Perpdex.antt =====
-- The perpetual DEX (crates/pevm/src/perpdex).
pub mod Types
pub mod State
pub mod Partition
pub mod Defaults
mod PartitionExamples
pub mod Storage
pub mod Executor
