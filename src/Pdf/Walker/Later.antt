-- ===== src/Pdf/Walker/Later.antt =====
-- The steps between the header and the last comment: they lead to the states that keep nothing of
-- what was seen, and leave `eof_last` alone.
use async_chunker.Pdf.Fault.{xref_geometry}
use async_chunker.Pdf.Object.{
  ObjectScanner, ObjectSignal, nothing, stream_begins, object_ends, dict_closed, is_whitespace,
  is_line_end, captured, parse_int,
}
use async_chunker.Pdf.Object
use async_chunker.Pdf.Walker.{
  State, magic, header_line, item, comment, obj_header, object, stream_eol, stream_bytes,
  stream_close, stream_scan, item_keyword, xref_line, xref_entries, trailer, startxref_line, Walker,
  step, close_xref_line, in_object, to, payload_of, stream_payload, feed_word, feed_part,
  feed_parts, subsection, trailer_words, xref_words, split, non_empty, stream_close_step,
  stream_scan_step,
}
use async_chunker.Prelude.Text.{starts_with, codes}
use async_chunker.Prelude.{
  ℕ, zero, suc, ◌≡◌, ◌≢◌, refl, false, [], ◌∷◌, arith, List, Option, none, some, ◌*◌, ◌^◌, ltb,
  drop, Bytes, if_cases,
}
use async_chunker.Result.{ok_or, ◌>>=◌, Ensures}

-- The states that keep nothing of what was seen.
abbrev pub Plain : State → Type 0
Plain (magic matched) = ⊥
Plain (comment line len) = ⊥
Plain _ = Unit

abbrev pub Moves : Walker → Type 0
Moves w = Plain w.state × (w.eof_last ≡ false)

payload-Plain : (s : ObjectScanner) (o : Option ℕ) → Plain (payload_of s o)
payload-Plain s none = tt
payload-Plain s (some zero) = tt
payload-Plain s (some (suc n)) = tt

stream_payload-Plain : (s : ObjectScanner) → Plain (stream_payload s)
unfolding stream_payload
stream_payload-Plain s = payload-Plain s (captured s.length)

feed_parts-Plain : (s : ObjectScanner) (parts : List Bytes) → Plain (feed_parts s parts)
unfolding feed_parts
feed_parts-Plain s [] = tt
feed_parts-Plain s (part ∷ parts) =
    let fed = feed_part (Object.consume s b' ').0 part in
    if_cases Plain fed.1 _ _ (λ _. tt) (λ _. feed_parts-Plain fed.0 parts)

in_object-Moves :
    (w : Walker) (b : ℕ) (r : ObjectScanner × ObjectSignal)
    → w.eof_last ≡ false
    → Ensures Moves (in_object w b r)
in_object-Moves w b (s, nothing) e = (tt, e)
in_object-Moves w b (s, dict_closed) e = (tt, e)
in_object-Moves w b (s, object_ends) e = (tt, e)
in_object-Moves w b (s, stream_begins) e = ground (arith, stream_payload-Plain s)

subsection-Moves :
    (w : Walker) (start count : Option ℕ)
    → w.eof_last ≡ false
    → Ensures Moves (subsection w start count)
subsection-Moves w none count e = tt
subsection-Moves w (some start) none e = tt
subsection-Moves w (some start) (some zero) e = (tt, e)
subsection-Moves w (some start) (some (suc n)) e =
    if_cases
      (λ (o : Option ℕ). Ensures Moves (ok_or o xref_geometry >>= λ r. to w (xref_entries r)))
      (ltb (suc n * 20) (2 ^ 64)) _ _ (λ _. (tt, e)) (λ _. tt)

trailer_words-Moves :
    (w : Walker) (first : Bytes) (rest : List Bytes)
    → w.eof_last ≡ false
    → Ensures Moves (trailer_words w first rest)
trailer_words-Moves w first rest e =
    if_cases (Ensures Moves) (starts_with first (codes "trailer")) _ _
      (λ _. (feed_parts-Plain (feed_word Object.new (drop 7 first)) rest, e)) (λ _. tt)

xref_words-Moves :
    (w : Walker) (words : List Bytes) → w.eof_last ≡ false → Ensures Moves (xref_words w words)
xref_words-Moves w [] e = (tt, e)
xref_words-Moves w (first ∷ []) e = trailer_words-Moves w first [] e
xref_words-Moves w (start ∷ count ∷ []) e = subsection-Moves w (parse_int start) (parse_int count) e
xref_words-Moves w (a ∷ b ∷ c ∷ rest) e = trailer_words-Moves w a (b ∷ c ∷ rest) e

pub later-Moves :
    (st : State) (w : Walker) (b : ℕ)
    → Plain st
    → st ≢ item
    → w.eof_last ≡ false
    → Ensures Moves (step st w b)
unfolding step stream_close_step stream_scan_step close_xref_line
later-Moves (magic matched) w b l n e = elim l [ ]
later-Moves (comment line len) w b l n e = elim l [ ]
later-Moves header_line w b l n e = ground arith
later-Moves item w b l n e = absurd (n refl)
later-Moves (obj_header ints seen) w b l n e = ground arith
later-Moves (object s) w b l n e = in_object-Moves w b (Object.consume s b) e
later-Moves (stream_eol s saw_cr) w b l n e = ground (arith, stream_payload-Plain s)
later-Moves (stream_bytes s remaining) w b l n e = ground arith
later-Moves (stream_close s matched) w b l n e = ground arith
later-Moves (stream_scan s matched) w b l n e = ground arith
later-Moves (item_keyword token) w b l n e = ground arith
later-Moves (xref_line line) w b l n e = ground (arith, xref_words-Moves w (non_empty (split line)))
later-Moves (xref_entries remaining) w b l n e = ground arith
later-Moves (trailer s) w b l n e = ground arith
later-Moves (startxref_line len seen) w b l n e = ground arith
