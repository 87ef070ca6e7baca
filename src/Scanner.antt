-- ===== src/Scanner.antt =====
-- The line and block scanners of src/lib.rs.
pub mod Lines
pub mod Quotes
pub mod Operators
pub mod Names
pub mod Shell
pub mod Braces
pub mod Python
pub mod Functions
pub mod Bounds
pub mod Longest
