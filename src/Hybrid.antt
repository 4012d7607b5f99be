-- ===== src/Hybrid.antt =====
-- Mixed blocks (crates/pevm/src/hybrid.rs): which virtual machine a transaction is for, and the byte
-- format of perpetual DEX transactions.
pub mod Bytes
pub mod Encode
pub mod Decode
pub mod Total
pub mod Parts
pub mod Rounds
pub mod RoundTrip
mod Examples
