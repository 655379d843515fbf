-- ===== src/Provider/Fake.antt =====
-- crates/control-plane/src/provider/fake.rs: the provider in an SQLite database of its own, with
-- faults to inject.
pub mod Tables
pub mod Plans
pub mod Resources
