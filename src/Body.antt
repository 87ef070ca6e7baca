-- ===== src/Body.antt =====
-- The analysis of function bodies of src/body.rs.
pub mod Diagnostics
pub mod Python
pub mod Located
pub mod Shell
pub mod Outer
pub mod Phases
pub mod Words
pub mod Meanings
pub mod Nesting
