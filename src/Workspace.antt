-- ===== src/Workspace.antt =====
-- The workspace index of src/workspace.rs.
pub mod Cycle
pub mod Walks
pub mod Found
pub mod Search
