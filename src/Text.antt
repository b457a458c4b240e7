-- ===== src/Text.antt =====
-- Rust's `str` and `String` as lists of Unicode scalar values, with the operations of the standard
-- library that the bridge uses. A literal is written `lit "..."`.
mod Compare
pub mod Trim
mod Find
pub mod Number
pub mod Utf8
unfoldable pub use Compare.{Text, lit, text_eq, text_le, text_max, non_empty, is_empty}
pub use Compare.{
  text_eq_iff, text_eq_refl, text_eq_ne, text_le_refl, text_le_trans, text_le-total,
  text_le-antisym,
}
unfoldable pub use Trim.{
  is_whitespace, trim_start, trim_end, trim, strip_newlines, trim_spaces, trim_end_matches,
}
pub use Trim.{trim_end-split, strip_newlines-split}
unfoldable pub use Find.{starts_with, ends_with, last_of, find?, contains_char}
pub use Find.{last_of-append, starts_with-append, starts_with-split, find?-split}
unfoldable pub use Number.{show_nat, read_nat}
pub use Number.{read_nat-show_nat}
