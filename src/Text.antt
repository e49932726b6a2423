-- ===== src/Text.antt =====
-- Go strings and what the program uses of the packages strings, sort and fmt. The order of UTF-8
-- bytes is the order of code points, and `[]byte(s)` loses nothing.
mod Equality
pub mod Decimal
pub mod Search
pub mod Order
pub mod Edit
pub mod Path
pub use Equality.{Text, codes, text_eq_refl, text_eq_iff}
unfoldable pub use Equality.{text_eq}
