-- ===== src/Overrides.antt =====
-- Override keys and override values of src/overrides.rs.
pub mod Keys
pub mod Components
pub mod References
pub mod Values
pub mod Splitting
pub mod Segments
pub mod Removal
pub mod Expansion
pub mod Loop
pub mod Legacy
pub mod ParseKey
pub mod Suffixes
pub mod Static
pub mod Rank
pub mod Resolve
pub mod Precedence
pub mod Selected
pub mod Tokens
pub mod Grouping
pub mod Code
pub mod Flags
