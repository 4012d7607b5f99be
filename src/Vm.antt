-- ===== src/Vm.antt =====
-- The adapter between the EVM and the multi-version memory (crates/pevm/src/vm.rs).
pub mod Types
pub mod Reads
pub mod Descent
pub mod Account
pub mod Lazy
pub mod Trace
pub mod Rules
pub mod Forward
pub mod ReadSet
pub mod Tracking
pub mod Accounts
pub mod Session
pub mod WriteSet
pub mod Rewards
pub mod RewardValue
pub mod Execute
pub mod Done
pub mod Executed
pub mod Blocking
pub mod BlockedAccounts
pub mod BlockedExecution
pub mod Beneficiary
pub mod Paid
pub mod Concrete
mod Examples
