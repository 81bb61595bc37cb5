-- ===== src/Pdf/Walker/Declared.antt =====
-- A stream from the end of its dictionary: the length that is captured is the length that is skipped.
use async_chunker.Pdf.Object
use async_chunker.Pdf.Object.{ObjectScanner, LengthCapture, want_value, have, captured}
use async_chunker.Pdf.Walker.{Walker, endstream}
use async_chunker.Prelude.Text.{codes}
use async_chunker.Prelude.{ℕ, true, false, none, some, [], ◌∷◌, ◌++◌, length, Bytes}

-- The scanner between two entries of an object's outermost dictionary.
abbrev pub in_dict : LengthCapture → ObjectScanner
in_dict captured = record {
  token = [];
  token_dead = false;
  token_is_name = false;
  string_depth = 0;
  string_escape = false;
  in_hex = false;
  in_comment = false;
  dict_depth = 1;
  dict_was_open = true;
  pending_angle = none;
  length = captured;
}

-- Behind that dictionary.
abbrev pub behind_dict : ℕ → ObjectScanner
behind_dict value = record (in_dict (have value 0)) { dict_depth = 0 }

abbrev reading : Bytes → ObjectScanner
reading digits = record (in_dict want_value) { token = digits }

abbrev angled : ℕ → ObjectScanner
angled value = record (in_dict (have value 0)) { pending_angle = some b'>' }

-- A stream whose dictionary ends with its length.
abbrev pub stream_of : Bytes → Bytes → Bytes → Bytes
stream_of digits payload white =
    codes "/Length "
    ++ (digits ++ (b'>' ∷ (codes ">stream" ++ 10 ∷ (payload ++ (white ++ endstream)))))
