-- ===== src/Perpdex/Executor.antt =====
-- The executor of the perpetual DEX (crates/pevm/src/perpdex/executor.rs).
pub mod Base
pub mod Matching
pub mod Operations
pub mod Keeps
pub mod Writes
pub mod Yields
pub mod Counter
pub mod Outcome
mod Examples
