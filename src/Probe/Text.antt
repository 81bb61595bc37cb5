-- ===== src/Probe/Text.antt =====
-- src/probe/text.rs: the probe of structured text. `std::str::from_utf8` is the scanner of module Utf8, with
-- the place behind the last whole scalar.
pub mod Whole
use async_chunker.Constants.{probe_prefix_max}
use async_chunker.Prelude.{
  ℕ, ◌+◌, Bool, true, false, not, ◌&&◌, ◌||◌, [], ◌∷◌, leb, ◌==◌, if◌then◌else◌, Bytes, length,
  take, is_empty,
}
use async_chunker.Result.{Result, ok, err}
use async_chunker.Utf8
use async_chunker.Utf8.{Utf8Fault, Utf8Scanner, start, at_boundary}

-- What `from_utf8` returns: `error_len` is none where the bytes end within a scalar.
pub data Utf8Result : Type 0 where
  valid : Utf8Result
  cut_short : ℕ → Utf8Result
  invalid : Utf8Result

-- Behind `at` bytes, the first `up_to` of them whole scalars.
unfoldable pub decode : Utf8Scanner → ℕ → ℕ → Bytes → Utf8Result
decode s up_to at [] = if at_boundary s then valid else cut_short up_to
decode s up_to at (b ∷ bs) = elim (Utf8.push s b) [
  | ok (t, whole) ↦ decode t (if whole then at + 1 else up_to) (at + 1) bs
  | err fault ↦ invalid
]

unfoldable pub from_utf8 : Bytes → Utf8Result
unfolding decode
from_utf8 = decode start 0 0

-- No C0 control characters but tab, line feed, form feed and carriage return.
unfoldable pub is_printable : Bytes → Bool
is_printable [] = true
is_printable (b ∷ bs) = (leb 0x20 b || b == 9 || b == 10 || b == 12 || b == 13) && is_printable bs

-- What follows the call of `from_utf8`.
unfoldable pub judged : Bytes → Utf8Result → Bool
unfolding is_printable
judged prefix valid = is_printable prefix
judged prefix (cut_short up_to) =
    if leb probe_prefix_max (length prefix) then is_printable (take up_to prefix) else false
judged prefix invalid = false

unfoldable pub is_structured_text_prefix : Bytes → Bool
unfolding judged from_utf8 Utf8.push at_boundary
is_structured_text_prefix prefix =
    if is_empty prefix then false else judged prefix (from_utf8 prefix)
