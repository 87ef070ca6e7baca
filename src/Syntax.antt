-- ===== src/Syntax.antt =====
-- The concrete syntax tree of src/syntax.rs and its parser.
pub mod Tree
pub mod Result
pub mod Statement
pub mod Definitions
pub mod Parse
pub mod Advance
pub mod Located
pub mod Code
pub mod Lossless
pub mod Ranges
pub mod Assignments
