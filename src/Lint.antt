-- ===== src/Lint.antt =====
-- The lint engine of src/lint.rs.
pub mod Rules
pub mod Profiles
pub mod Names
pub mod Options
pub mod Suppression
pub mod Finalize
pub mod Reported
pub mod Directives
pub mod Summary
pub mod Findings
pub mod Outcome
pub mod Fixes
pub mod Splice
pub mod Lines
pub mod Nodes
pub mod Repeated
pub mod Assignments
pub mod Autorev
pub mod Boundaries
pub mod LineParts
pub mod Trimmed
