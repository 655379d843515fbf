-- ===== src/Controller.antt =====
-- crates/control-plane/src/controller.rs: the reconciliation of HostClaims with Hosts. `Marks` has
-- the functions that write status into the records, `Outcomes` the records after
-- each answer of the provider, `World` what a step of the controller acts on, `Reconcile` and
-- `Deletion` the steps, and `Loop` the scan over all claims and the loop around it.
pub mod Marks
pub mod Outcomes
pub mod World
pub mod Reconcile
pub mod Deletion
pub mod Loop
pub mod Calls
pub mod Preserved
pub mod Service
