-- ===== src/EvmStorages.antt =====
-- The storages of the EVM (crates/pevm/src/storage.rs and crates/pevm/src/storage/in_memory.rs).
pub mod Code
pub mod InMemory
pub mod Wrapper
pub mod Agreement
pub mod Reads
mod Examples
