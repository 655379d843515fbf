-- ===== src/Storage.antt =====
-- crates/control-plane/src/storage.rs: the SQLite database of the Control Plane. `Rows` has the rows
-- and what reads them, `Tables` the tables with their constraints and the statements, `Claims` and
-- `Hosts` the operations. An operation is a function of the database; one that fails leaves it as it
-- was, by the rollback of its transaction or since its one statement changed nothing.
pub mod Rows
pub mod Tables
pub mod Commit
pub mod Claims
pub mod Hosts
pub mod Ownership
pub mod Terms
pub mod Invariant
