-- ===== src/Chains.antt =====
-- The chains (crates/pevm/src/chain).
pub mod Ethereum
mod Examples
