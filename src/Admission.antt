-- ===== src/Admission.antt =====
-- src/admission.ts: who may start work, and the lease files that say who has.
pub mod Types
pub mod Validate
pub mod Evaluate
pub mod Decision
pub mod Honesty
pub mod Reasons
pub mod Lease
pub mod Files
pub mod Manager
pub mod Owner
pub mod Table
pub mod Capacity
pub mod Updates
pub mod Sharing
pub mod Owners
pub mod Written
pub mod Run
pub mod Lock
pub mod Race
mod Examples
