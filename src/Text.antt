-- ===== src/Text.antt =====
-- Rust's `&str` as the list of its UTF-8 bytes, with the operations of the standard library that
-- the sources call. Positions and lengths are byte offsets, as in the sources. Where Rust asks
-- for a Unicode white-space character, its encodings are recognised byte by byte.
mod Defs
mod Ascii
mod Laws
pub mod Scan
pub mod Spacing
pub mod Search
pub mod Maps
pub mod MapLaws
unfoldable pub use Defs.*
unfoldable pub use Ascii.*
pub use Laws.*
