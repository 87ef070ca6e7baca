-- ===== src/Transaction.antt =====
-- The staged file replacement of src/transaction.rs.
pub mod Disk
pub mod Commit
pub mod Items
pub mod Rollback
pub mod Atomic
