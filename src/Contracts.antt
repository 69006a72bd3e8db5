-- ===== src/Contracts.antt =====
-- src/contracts-v2.ts: the task contract, its validation and the contract of a job of old.
pub mod Paths
pub mod Budgets
pub mod Entries
pub mod Validate
pub mod Limits
pub mod Within
pub mod Contained
pub mod Inside
pub mod Legacy
mod Examples
