-- ===== src/Pdf/Walker.antt =====
-- src/chunker/pdf/walker.rs: the forward-only walker over a document's body items. A line or keyword
-- is the list of its bytes so far; that a line is too long is the guard on its length.
pub mod Rooms
pub mod Payload
pub mod Declared
pub mod Later
pub mod Taken
pub mod Closing
pub mod Past
pub mod Ending
use async_chunker.Pdf.Fault.{
  PdfFault, not_pdf, bad_object_header, bad_keyword, bad_stream_eol, xref_geometry, truncated,
  missing_eof,
}
use async_chunker.Pdf.Object
use async_chunker.Pdf.Object.{
  ObjectScanner, ObjectSignal, nothing, stream_begins, object_ends, dict_closed, is_whitespace,
  is_digit, is_line_end, captured, parse_int,
}
use async_chunker.Prelude.Words.{checked}
use async_chunker.Prelude.Text.{bytes_eq, starts_with, codes}
use async_chunker.Prelude.{
  ℕ, zero, suc, ◌+◌, ◌-◌, ◌*◌, Bool, true, false, ◌&&◌, ◌||◌, Option, none, some, List, [], ◌∷◌,
  ◌++◌, ltb, leb, ◌==◌, if◌then◌else◌, Bytes, length, is_empty, drop, get_or,
}
use async_chunker.Result.{Result, ok, err, ◌>>=◌, ok_or}

abbrev pub line_max : ℕ
line_max = 128

abbrev pub magic_bytes : Bytes
magic_bytes = codes "%PDF-"

abbrev pub endstream : Bytes
endstream = codes "endstream"

pub data State : Type 0 where
  magic : ℕ → State
  header_line item : State
  comment : Bytes → ℕ → State
  obj_header : ℕ → Bool → State
  object : ObjectScanner → State
  stream_eol : ObjectScanner → Bool → State
  stream_bytes : ObjectScanner → ℕ → State
  stream_close : ObjectScanner → ℕ → State
  stream_scan : ObjectScanner → ℕ → State
  item_keyword : Bytes → State
  xref_line : Bytes → State
  xref_entries : ℕ → State
  trailer : ObjectScanner → State
  startxref_line : ℕ → Bool → State

pub record Walker : Type 0 where
  pub state : State
  pub offset : ℕ
  pub eof_last : Bool
  pub boundary_pending : Bool

abbrev pub W : Type 0 → Type 0
W = Result PdfFault

unfoldable pub new : Walker
new = record { state = magic 0; offset = 0; eof_last = false; boundary_pending = false }

abbrev pub at_item_boundary : Walker → Bool
at_item_boundary w = w.boundary_pending

-- The walker in another state.
abbrev pub to : Walker → State → W Walker
to w s = ok (record w { state = s })

-- A byte in front of the first part.
abbrev onto : ℕ → List Bytes → List Bytes
onto b [] = (b ∷ []) ∷ []
onto b (part ∷ parts) = (b ∷ part) ∷ parts

-- `text.split(is_whitespace)`
unfoldable pub split : Bytes → List Bytes
unfolding is_whitespace
split [] = [] ∷ []
split (b ∷ bs) = let rest = split bs in if is_whitespace b then [] ∷ rest else onto b rest

-- `filter(|part| !part.is_empty())`
unfoldable pub non_empty : List Bytes → List Bytes
non_empty [] = []
non_empty (part ∷ parts) = let rest = non_empty parts in if is_empty part then rest else part ∷ rest

-- The bytes of the line's first word, behind `trailer`: what they signal is not looked at.
unfoldable pub feed_word : ObjectScanner → Bytes → ObjectScanner
unfolding Object.consume
feed_word s [] = s
feed_word s (b ∷ bs) = feed_word (Object.consume s b).0 bs

abbrev pub closes : ObjectSignal → Bool
closes dict_closed = true
closes _ = false

-- A later word of the line: whether the dictionary closed in it.
unfoldable pub feed_part : ObjectScanner → Bytes → ObjectScanner × Bool
unfolding Object.consume
feed_part s [] = (s, false)
feed_part s (b ∷ bs) =
    let r = Object.consume s b in
    let rest = feed_part r.0 bs in if closes r.1 then (r.0, true) else rest

unfoldable pub feed_parts : ObjectScanner → List Bytes → State
unfolding Object.consume feed_part
feed_parts s [] = trailer s
feed_parts s (part ∷ parts) =
    let fed = feed_part (Object.consume s b' ').0 part in
    let rest = feed_parts fed.0 parts in if fed.1 then item else rest

-- A subsection header: the entries behind it are twenty bytes each.
abbrev pub subsection : Walker → Option ℕ → Option ℕ → W Walker
subsection w (some start) (some zero) = to w (xref_line [])
subsection w (some start) (some (suc n)) = do
  remaining ← ok_or (checked (suc n * 20)) xref_geometry
  to w (xref_entries remaining)
subsection w _ _ = err xref_geometry

-- The arms of the match on the words of a line.
abbrev pub trailer_words : Walker → Bytes → List Bytes → W Walker
trailer_words w first rest =
    if starts_with first (codes "trailer")
    then to w (feed_parts (feed_word Object.new (drop 7 first)) rest)
    else err xref_geometry

abbrev pub xref_words : Walker → List Bytes → W Walker
xref_words w [] = to w (xref_line [])
xref_words w (start ∷ count ∷ []) = subsection w (parse_int start) (parse_int count)
xref_words w (first ∷ rest) = trailer_words w first rest

unfoldable pub close_xref_line : Walker → Bytes → W Walker
unfolding split non_empty parse_int starts_with feed_word feed_parts Object.new
close_xref_line w text = xref_words w (non_empty (split text))

-- `Some(0)` has no payload to count.
abbrev pub payload_of : ObjectScanner → Option ℕ → State
payload_of scanner none = stream_scan scanner 0
payload_of scanner (some zero) = stream_close scanner 0
payload_of scanner (some (suc n)) = stream_bytes scanner (suc n)

unfoldable pub stream_payload : ObjectScanner → State
unfolding captured
stream_payload scanner = payload_of scanner (captured scanner.length)

-- The byte at an item's start.
abbrev pub begin_item : Walker → ℕ → W Walker
begin_item w byte =
    if byte == b'%'
    then to w (comment (b'%' ∷ []) 1)
    else if is_digit byte
    then to w (obj_header 0 true)
    else if byte == b'x' || byte == b't' || byte == b's'
    then to w (item_keyword (byte ∷ []))
    else err bad_keyword

abbrev pub with_ints : ℕ → Bool → ℕ
with_ints ints seen_digits = if seen_digits then ints + 1 else ints

abbrev pub object_header : Walker → ℕ → Bool → ℕ → W Walker
object_header w ints seen_digits byte =
    let n = with_ints ints seen_digits in
    if is_digit byte
    then to w (obj_header ints true)
    else if is_whitespace byte
    then (if seen_digits && ltb 2 n then err bad_object_header else to w (obj_header n false))
    else if byte == b'o' || byte == b'b' || byte == b'j'
    then (if n == 2
        then to w (if byte == b'j' then object Object.new else obj_header n false)
        else err bad_object_header)
    else err bad_object_header

-- What follows the scanner's call in an object.
abbrev pub in_object : Walker → ℕ → ObjectScanner × ObjectSignal → W Walker
in_object w byte (scanner, nothing) = to w (object scanner)
in_object w byte (scanner, dict_closed) = to w (object scanner)
in_object w byte (scanner, object_ends) = to w item
in_object w byte (scanner, stream_begins) =
    if byte == 10
    then to w (stream_payload scanner)
    else if byte == 13
    then to w (stream_eol scanner true)
    else err bad_stream_eol

abbrev pub line_end : Walker → ObjectScanner → Bool → ℕ → W Walker
line_end w scanner saw_cr byte =
    if byte == 10
    then to w (stream_payload scanner)
    else if byte == 13
    then (if saw_cr then err bad_stream_eol else to w (stream_eol scanner true))
    else err bad_stream_eol

-- `usize::from(byte == ENDSTREAM[0])`
abbrev pub restarted : ℕ → ℕ
restarted byte = if byte == b'e' then 1 else 0

-- One more byte of `endstream` is matched.
abbrev pub matching : ObjectScanner → (ℕ → State) → ℕ → State
matching scanner here n = if n == 9 then object scanner else here n

unfoldable pub stream_close_step : ObjectScanner → ℕ → ℕ → State
unfolding is_whitespace
stream_close_step scanner matched byte =
    if matched == 0 && is_whitespace byte
    then stream_close scanner matched
    else if byte == get_or endstream matched 0
    then matching scanner (stream_close scanner) (matched + 1)
    else stream_scan scanner (restarted byte)

unfoldable pub stream_scan_step : ObjectScanner → ℕ → ℕ → State
stream_scan_step scanner matched byte =
    if byte == get_or endstream matched 0
    then matching scanner (stream_scan scanner) (matched + 1)
    else stream_scan scanner (restarted byte)

abbrev pub keyword : Walker → Bytes → ℕ → W Walker
keyword w token byte =
    if leb b'a' byte && leb byte b'z'
    then (if leb 10 (length token)
        then err bad_keyword
        else to w (item_keyword (token ++ byte ∷ [])))
    else if bytes_eq token (codes "xref")
    then to w (xref_line [])
    else if bytes_eq token (codes "trailer")
    then to w (trailer (Object.consume Object.new byte).0)
    else if bytes_eq token (codes "startxref")
    then to w (startxref_line 0 (is_digit byte))
    else err bad_keyword

abbrev pub in_trailer : Walker → ObjectScanner × ObjectSignal → W Walker
in_trailer w r = to w (if closes r.1 then item else trailer r.0)

unfoldable pub step : State → Walker → ℕ → W Walker
unfolding close_xref_line stream_payload stream_close_step stream_scan_step bytes_eq Object.consume
    Object.new is_whitespace
step (magic matched) w byte =
    if byte == get_or magic_bytes matched 0
    then to w (if matched + 1 == 5 then header_line else magic (matched + 1))
    else err not_pdf
step header_line w byte = to w (if is_line_end byte then item else header_line)
step item w byte =
    if is_whitespace byte then to w item else begin_item (record w { eof_last = false }) byte
step (comment line len) w byte =
    if is_line_end byte
    then ok (record w { eof_last = len == 5 && bytes_eq line (codes "%%EOF"); state = item })
    else to w (comment (if ltb len 5 then line ++ byte ∷ [] else line) (len + 1))
step (obj_header ints seen_digits) w byte = object_header w ints seen_digits byte
step (object scanner) w byte = in_object w byte (Object.consume scanner byte)
step (stream_eol scanner saw_cr) w byte = line_end w scanner saw_cr byte
step (stream_bytes scanner remaining) w byte =
    to w
      (if remaining - 1 == 0 then stream_close scanner 0 else stream_bytes scanner (remaining - 1))
step (stream_close scanner matched) w byte = to w (stream_close_step scanner matched byte)
step (stream_scan scanner matched) w byte = to w (stream_scan_step scanner matched byte)
step (item_keyword token) w byte = keyword w token byte
step (xref_line line) w byte =
    if is_line_end byte
    then close_xref_line w line
    else if leb line_max (length line)
    then err xref_geometry
    else to w (xref_line (line ++ byte ∷ []))
step (xref_entries remaining) w byte =
    to w (if remaining - 1 == 0 then xref_line [] else xref_entries (remaining - 1))
step (trailer scanner) w byte = in_trailer w (Object.consume scanner byte)
step (startxref_line len seen_digit) w byte =
    if is_digit byte
    then to w (startxref_line (len + 1) true)
    else if is_whitespace byte
    then to w (if seen_digit then item else startxref_line len seen_digit)
    else err bad_keyword

abbrev pub between_items : State → Bool
between_items item = true
between_items _ = false

-- The byte is counted also where the step failed.
abbrev pub counted : Walker → W Walker → Walker × W (Option ℕ)
counted w (ok v) =
    (record v { offset = w.offset + 1; boundary_pending = between_items v.state }, ok none)
counted w (err fault) = (record w { offset = w.offset + 1 }, err fault)

unfoldable pub consume : Walker → ℕ → Walker × W (Option ℕ)
unfolding step
consume w byte = counted w (step w.state w byte)

abbrev pub end_in : State → Bool → W (Unit {0})
end_in item true = ok tt
end_in item false = err missing_eof
end_in (comment line len) eof_last = err missing_eof
end_in (magic matched) eof_last = err not_pdf
end_in header_line eof_last = err not_pdf
end_in _ eof_last = err truncated

unfoldable pub finish : Walker → W (Unit {0})
finish w = end_in w.state w.eof_last
