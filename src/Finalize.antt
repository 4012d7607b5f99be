-- ===== src/Finalize.antt =====
-- What `Pexe::execute_revm_parallel` (crates/pevm/src/pexe.rs) does after its workers have left: it
-- collects the results and evaluates the lazily updated accounts.
pub mod Entry
pub mod History
pub mod Exact
pub mod Fold
pub mod Gas
pub mod Sequential
pub mod Mismatch
mod Examples
