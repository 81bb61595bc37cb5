-- ===== src/Pdf/Object.antt =====
-- src/chunker/pdf/object.rs: the scanner of an object's tokens. A token is the list of its bytes, at
-- most `token_max`; the nesting counters are 32-bit words.
use async_chunker.Prelude
use async_chunker.Prelude.Words.{checked}
use async_chunker.Prelude.Text.{bytes_eq, codes}
use async_chunker.Prelude.{
  ℕ, ◌+◌, ◌-◌, ◌*◌, ◌%◌, ◌^◌, Bool, true, false, not, ◌&&◌, ◌||◌, Option, none, some, [], ◌∷◌, ◌++◌,
  ltb, leb, ◌==◌, if◌then◌else◌, Bytes, is_empty,
}

abbrev pub token_max : ℕ
token_max = 10

pub data ObjectSignal : Type 0 where
  nothing stream_begins object_ends dict_closed : ObjectSignal

pub data LengthCapture : Type 0 where
  idle want_value : LengthCapture
  have : ℕ → ℕ → LengthCapture

pub record ObjectScanner : Type 0 where
  pub token : Bytes
  pub token_dead : Bool
  pub token_is_name : Bool
  pub string_depth : ℕ
  pub string_escape : Bool
  pub in_hex : Bool
  pub in_comment : Bool
  pub dict_depth : ℕ
  pub dict_was_open : Bool
  pub pending_angle : Option ℕ
  pub length : LengthCapture

unfoldable pub is_whitespace : ℕ → Bool
is_whitespace byte =
    byte == 0 || byte == 9 || byte == 10 || byte == 12 || byte == 13 || byte == b' '

unfoldable pub is_delimiter : ℕ → Bool
is_delimiter byte =
    byte == b'('
    || byte == b')'
    || byte == b'<'
    || byte == b'>'
    || byte == b'['
    || byte == b']'
    || byte == b'{'
    || byte == b'}'
    || byte == b'/'
    || byte == b'%'

abbrev pub is_digit : ℕ → Bool
is_digit byte = leb b'0' byte && leb byte b'9'

abbrev pub is_line_end : ℕ → Bool
is_line_end byte = byte == 10 || byte == 13

unfoldable pub new : ObjectScanner
new = record {
  token = [];
  token_dead = false;
  token_is_name = false;
  string_depth = 0;
  string_escape = false;
  in_hex = false;
  in_comment = false;
  dict_depth = 0;
  dict_was_open = false;
  pending_angle = none;
  length = idle;
}

-- The method `length`.
unfoldable pub captured : LengthCapture → Option ℕ
captured idle = none
captured want_value = none
captured (have value ints_after) = some value

abbrev pub all_digits : Bytes → Bool
all_digits [] = true
all_digits (b ∷ bs) = is_digit b && all_digits bs

-- `value.checked_mul(10)?.checked_add(digit)?`
abbrev pub shifted : ℕ → ℕ → Option ℕ
shifted value digit = elim (checked (value * 10)) [
  | none ↦ none
  | some tens ↦ checked (tens + digit)
]

-- The loop of `parse_int`.
unfoldable pub accumulate : ℕ → Bytes → Option ℕ
accumulate value [] = some value
accumulate value (b ∷ bs) = elim (shifted value (b - b'0')) [
  | none ↦ none
  | some next ↦ accumulate next bs
]

unfoldable pub parse_int : Bytes → Option ℕ
unfolding accumulate
parse_int token = if is_empty token || not (all_digits token) then none else accumulate 0 token

-- `saturating_add(1)` on a byte.
abbrev pub one_more : ℕ → ℕ
one_more n = if ltb n 255 then n + 1 else 255

unfoldable pub length_token : LengthCapture → Option ℕ → LengthCapture
length_token want_value (some value) = have value 0
length_token want_value none = idle
length_token (have value ints_after) (some int) = have value (one_more ints_after)
length_token (have value ints_after) none = have value ints_after
length_token idle int = idle

-- `/Length n g R` is an indirect reference.
unfoldable pub length_r : LengthCapture → LengthCapture
length_r (have value ints_after) = if ints_after == 1 then idle else have value ints_after
length_r idle = idle
length_r want_value = want_value

-- The end of a token that is not a name; the scanner has taken it.
abbrev pub close_bare : Bytes → ObjectScanner → ObjectScanner × ObjectSignal
close_bare token s =
    if bytes_eq token (codes "stream")
    then (s, stream_begins)
    else if bytes_eq token (codes "endobj")
    then (s, object_ends)
    else if bytes_eq token (codes "R")
    then (record s { length = length_r s.length }, nothing)
    else (record s { length = length_token s.length (parse_int token) }, nothing)

abbrev pub close_name : Bytes → ObjectScanner → ObjectScanner
close_name token s =
    if bytes_eq token (codes "Length") && s.dict_depth == 1
    then record s { length = want_value }
    else record s { length = length_token s.length none }

abbrev pub without_token : ObjectScanner → ObjectScanner
without_token s = record s { token = []; token_dead = false; token_is_name = false }

unfoldable pub close_token : ObjectScanner → ObjectScanner × ObjectSignal
unfolding bytes_eq parse_int length_token length_r
close_token s =
    let t : ObjectScanner = without_token s in
    if is_empty s.token
    then (s, nothing)
    else if s.token_dead
    then (record t { length = length_token t.length none }, nothing)
    else if s.token_is_name
    then (close_name s.token t, nothing)
    else close_bare s.token t

-- What the byte that ends a token begins.
abbrev pub delimit : ℕ → ObjectScanner → ObjectScanner
delimit byte s =
    if byte == b'('
    then record s { string_depth = 1; token_is_name = false }
    else if byte == b'<' || byte == b'>'
    then record s { pending_angle = some byte; token_is_name = false }
    else if byte == b'%'
    then record s { in_comment = true; token_is_name = false }
    else if byte == b'/'
    then record s { token = []; token_dead = false; token_is_name = true }
    else record s { token_is_name = false }

-- A byte of a bare token.
abbrev pub extend : ObjectScanner → ℕ → ObjectScanner
extend s byte =
    if ltb (Prelude.length s.token) token_max
    then record s { token = s.token ++ byte ∷ [] }
    else record s { token_dead = true }

-- The part of `consume` behind the match on the pending angle.
unfoldable pub syntax : ObjectScanner → ℕ → ObjectScanner × ObjectSignal
unfolding close_token is_whitespace is_delimiter
syntax s byte =
    let closed = close_token s in
    if is_whitespace byte || is_delimiter byte
    then (delimit byte closed.0, closed.1)
    else (extend s byte, nothing)

-- `>>`: the depth stops at zero.
abbrev pub close_dict : ObjectScanner → ObjectScanner × ObjectSignal
close_dict s =
    let t : ObjectScanner = record s { dict_depth = s.dict_depth - 1 } in
    (t, if t.dict_depth == 0 && s.dict_was_open then dict_closed else nothing)

-- The match on the pending angle, which is taken.
unfoldable pub behind_angle : Option ℕ → ObjectScanner → ℕ → ObjectScanner × ObjectSignal
unfolding syntax
behind_angle none s byte = syntax s byte
behind_angle (some pending) s byte =
    if pending == b'<'
    then (if byte == b'<'
        then (record s { dict_depth = (s.dict_depth + 1) % 2 ^ 32; dict_was_open = true }, nothing)
        else (record s { in_hex = not (byte == b'>') }, nothing))
    else if pending == b'>' && byte == b'>'
    then close_dict s
    else syntax s byte

-- A byte of a literal string.
abbrev pub in_string : ObjectScanner → ℕ → ObjectScanner
in_string s byte =
    if s.string_escape
    then record s { string_escape = false }
    else if byte == 92
    then record s { string_escape = true }
    else if byte == b'('
    then record s { string_depth = (s.string_depth + 1) % 2 ^ 32 }
    else if byte == b')'
    then record s { string_depth = s.string_depth - 1 }
    else s

unfoldable pub consume : ObjectScanner → ℕ → ObjectScanner × ObjectSignal
unfolding behind_angle
consume s byte =
    if s.in_comment
    then (if is_line_end byte then record s { in_comment = false } else s, nothing)
    else if ltb 0 s.string_depth
    then (in_string s byte, nothing)
    else if s.in_hex
    then (if byte == b'>' then record s { in_hex = false } else s, nothing)
    else behind_angle s.pending_angle (record s { pending_angle = none }) byte
