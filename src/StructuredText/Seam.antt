-- ===== src/StructuredText/Seam.antt =====
-- `Candidate` of src/chunker/structured_text/chunker.rs: what kind of cut a byte ends.
use async_chunker.Prelude.{ℕ, ◌||◌, ◌==◌, if◌then◌else◌}

pub data Candidate : Type 0 where
  none line_end soft_break : Candidate

-- `Candidate::of`: a line feed; or tab, carriage return, space, comma, semicolon, full stop, or one of
-- the four closing brackets.
unfoldable pub classify : ℕ → Candidate
classify b =
    if b == 10
    then line_end
    else if b == 9
        || b == 13
        || b == 32
        || b == 44
        || b == 59
        || b == 46
        || b == 125
        || b == 93
        || b == 62
        || b == 41
    then soft_break
    else none
