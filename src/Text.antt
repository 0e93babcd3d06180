-- ===== src/Text.antt =====
-- The operations of Python's `str` that the program uses, on the native text.
mod Defs
mod Laws
mod Numbers
pub use Laws.{
  append-nil, append_assoc, starts_clean-strip, strip_idem, rstrip_idem, append-after,
  has_char-before, strip_prefix-append, has_prefix-append, eq_of_has_prefix, text_gt_trans,
  text_gt_irrefl,
}
pub use Numbers.{
  parse_nat-show, show-dash, before-append, after-append, show-are_digits, strip-digits,
  is_empty-show,
}
unfoldable pub use Numbers.{are_digits}
pub use Defs.{is_empty, starts_clean}
unfoldable pub use Defs.{
  append, is_space, lstrip, rstrip, strip, strip_prefix, has_prefix, has_char, contains, before,
  after, last_part, has_suffix, skip_chars, first_chars, lower, upper, show, parse_nat, digits,
  text_gt,
}
