-- ===== src/Formatter.antt =====
-- The formatter of src/formatter.rs.
pub mod Options
pub mod Values
pub mod Directives
pub mod Output
pub mod Code
pub mod Verbatim
