-- ===== src/Utf8.antt =====
-- src/chunker/structured_text/utf8.rs: the UTF-8 scanner.
pub mod Scalars
pub mod Scan
use async_chunker.Prelude.{
  ℕ, ◌-◌, Bool, true, false, ◌||◌, ◌&&◌, String, ltb, leb, ◌==◌, if◌then◌else◌,
}
use async_chunker.Result.{Result, ok, err}

pub data Utf8Fault : Type 0 where
  invalid_lead_byte invalid_continuation : Utf8Fault

unfoldable pub detail : Utf8Fault → String
detail invalid_lead_byte = "invalid UTF-8 lead byte"
detail invalid_continuation = "invalid UTF-8 continuation byte"

pub record Utf8Scanner : Type 0 where
  pub remaining : ℕ
  pub next_lo : ℕ
  pub next_hi : ℕ

-- `Default`
abbrev pub start : Utf8Scanner
start = record { remaining = 0; next_lo = 0; next_hi = 0 }

abbrev within : ℕ → ℕ → ℕ → Bool
within lo hi b = leb lo b && leb b hi

abbrev opens : ℕ → ℕ → ℕ → Result Utf8Fault (Utf8Scanner × Bool)
opens remaining lo hi = ok (record { remaining = remaining; next_lo = lo; next_hi = hi }, false)

-- `begin`; an ASCII byte leaves the scanner as it is.
pub begin : Utf8Scanner → ℕ → Result Utf8Fault (Utf8Scanner × Bool)
begin s lead =
    if leb lead 0x7f
    then ok (s, true)
    else if within 0xc2 0xdf lead
    then opens 1 0x80 0xbf
    else if lead == 0xe0
    then opens 2 0xa0 0xbf
    else if within 0xe1 0xec lead || within 0xee 0xef lead
    then opens 2 0x80 0xbf
    else if lead == 0xed
    then opens 2 0x80 0x9f
    else if lead == 0xf0
    then opens 3 0x90 0xbf
    else if within 0xf1 0xf3 lead
    then opens 3 0x80 0xbf
    else if lead == 0xf4
    then opens 3 0x80 0x8f
    else err invalid_lead_byte

-- `push`: the scanner and whether the byte completed a scalar.
unfoldable pub push : Utf8Scanner → ℕ → Result Utf8Fault (Utf8Scanner × Bool)
unfolding begin
push s byte =
    if s.remaining == 0
    then begin s byte
    else if ltb byte s.next_lo || ltb s.next_hi byte
    then err invalid_continuation
    else ok (
      record { remaining = s.remaining - 1; next_lo = 0x80; next_hi = 0xbf },
      s.remaining - 1 == 0,
    )

unfoldable pub at_boundary : Utf8Scanner → Bool
at_boundary s = s.remaining == 0
