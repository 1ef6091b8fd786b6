-- ===== src/Store.antt =====
-- crates/signet-db/src/lib.rs: the tables, and each SQL statement as a function on them. The columns
-- `workspace_id`, `ln_endpoint` and `current_snapshot_id` are never written and are left out.
pub mod Rows
pub mod Statements
pub mod Lightning
pub mod Guarantees
pub mod Replacing
