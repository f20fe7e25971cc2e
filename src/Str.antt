-- ===== src/Str.antt =====
-- The functions of Rust's `str` that the program calls, on byte lists.
mod Defs
mod Laws
pub mod Decimal
pub mod Paths
unfoldable pub use Defs.*
pub use Laws.*
