-- ===== src/Storage/Invariant.antt =====
-- Properties of the database and what they need of the statements and operations of storage.rs:
-- consistency, the CHECK clauses, and what stands until its deletion is asked for.
pub mod Interface
pub mod Resources
pub mod Checked
pub mod Owned
pub mod Consistent
pub mod Updates
pub mod Promises
pub mod Transactions
pub mod Operations
pub mod HostOperations
pub mod Guarded
pub mod Demand
pub mod Standing
pub mod Listed
