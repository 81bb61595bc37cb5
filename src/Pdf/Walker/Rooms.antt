-- ===== src/Pdf/Walker/Rooms.antt =====
-- The walker's arrays are written and read within their ends, and its counters do not underflow.
use async_chunker.Pdf.Fault.{xref_geometry}
use async_chunker.Pdf.Object
use async_chunker.Pdf.Object.{
  ObjectScanner, token_max, delimit, extend, close_token, syntax, behind_angle, is_whitespace,
  is_delimiter, ObjectSignal, nothing, stream_begins, object_ends, dict_closed, captured, parse_int,
}
use async_chunker.Pdf.Walker.{
  State, magic, header_line, item, comment, obj_header, object, stream_eol, stream_bytes,
  stream_close, stream_scan, item_keyword, xref_line, xref_entries, trailer, startxref_line, Walker,
  W, new, step, consume, counted, line_max, feed_word, feed_part, feed_parts, xref_words,
  trailer_words, subsection, stream_payload, payload_of, in_object, stream_close_step,
  stream_scan_step, closes, split, non_empty, to, in_trailer, matching,
}
use async_chunker.Prelude.Text.{starts_with, codes}
use async_chunker.Prelude.{
  ℕ, zero, suc, ◌*◌, ◌≤◌, ◌<◌, ◌≡◌, refl, Bool, Option, none, some, List, [], ◌∷◌, arith, length,
  Bytes, length-append, if_cases, drop, ◌||◌, ltb, ◌==◌, ◌^◌,
}
use async_chunker.Result.{ok, err, Ensures, ok_or, ◌>>=◌}

abbrev pub Bounded : ObjectScanner → Type 0
Bounded s = length s.token ≤ token_max

abbrev pub InRoom : State → Type 0
InRoom (magic matched) = matched < 5
InRoom header_line = Unit
InRoom item = Unit
InRoom (comment line len) = (length line ≤ 5) × (length line ≤ len)
InRoom (obj_header ints seen) = ints ≤ 2
InRoom (object s) = Bounded s
InRoom (stream_eol s saw_cr) = Bounded s
InRoom (stream_bytes s remaining) = Bounded s × (0 < remaining)
InRoom (stream_close s matched) = Bounded s × (matched < 9)
InRoom (stream_scan s matched) = Bounded s × (matched < 9)
InRoom (item_keyword token) = length token ≤ 10
InRoom (xref_line line) = length line ≤ line_max
InRoom (xref_entries remaining) = 0 < remaining
InRoom (trailer s) = Bounded s
InRoom (startxref_line len seen) = Unit

close_token-Bounded : (s : ObjectScanner) → Bounded s → Bounded (close_token s).0
unfolding close_token
close_token-Bounded s h = ground arith

delimit-Bounded : (b : ℕ) (s : ObjectScanner) → Bounded s → Bounded (delimit b s)
delimit-Bounded b s h = ground arith

extend-Bounded : (s : ObjectScanner) (b : ℕ) → Bounded s → Bounded (extend s b)
extend-Bounded s b h = ground (arith, length-append {0} s.token (b ∷ []))

syntax-Bounded : (s : ObjectScanner) (b : ℕ) → Bounded s → Bounded (syntax s b).0
unfolding syntax
syntax-Bounded s b h =
    if_cases (λ (r : ObjectScanner × ObjectSignal). Bounded r.0) (is_whitespace b || is_delimiter b)
      _ _ (λ _. delimit-Bounded b (close_token s).0 (close_token-Bounded s h))
      (λ _. extend-Bounded s b h)

behind_angle-Bounded :
    (o : Option ℕ) (s : ObjectScanner) (b : ℕ) → Bounded s → Bounded (behind_angle o s b).0
unfolding behind_angle
behind_angle-Bounded none s b h = syntax-Bounded s b h
behind_angle-Bounded (some p) s b h = ground (arith, syntax-Bounded s b h)

pub consume-Bounded : (s : ObjectScanner) (b : ℕ) → Bounded s → Bounded (Object.consume s b).0
unfolding Object.consume
consume-Bounded s b h =
    ground (arith, behind_angle-Bounded s.pending_angle (record s { pending_angle = none }) b h)

feed_word-Bounded : (s : ObjectScanner) (bs : Bytes) → Bounded s → Bounded (feed_word s bs)
unfolding feed_word
feed_word-Bounded s [] h = h
feed_word-Bounded s (b ∷ bs) h = feed_word-Bounded (Object.consume s b).0 bs (consume-Bounded s b h)

feed_part-Bounded : (s : ObjectScanner) (bs : Bytes) → Bounded s → Bounded (feed_part s bs).0
unfolding feed_part
feed_part-Bounded s [] h = h
feed_part-Bounded s (b ∷ bs) h =
    let r = Object.consume s b in
    if_cases (λ (r : ObjectScanner × Bool). Bounded r.0) (closes r.1) _ _
      (λ _. consume-Bounded s b h) (λ _. feed_part-Bounded r.0 bs (consume-Bounded s b h))

feed_parts-InRoom :
    (s : ObjectScanner) (parts : List Bytes) → Bounded s → InRoom (feed_parts s parts)
unfolding feed_parts
feed_parts-InRoom s [] h = h
feed_parts-InRoom s (part ∷ parts) h =
    let fed = feed_part (Object.consume s b' ').0 part in
    if_cases InRoom fed.1 _ _ (λ _. tt)
      (λ _.
        feed_parts-InRoom fed.0 parts
          (feed_part-Bounded (Object.consume s b' ').0 part (consume-Bounded s b' ' h)))

Safe : Walker → Type 0
Safe w = InRoom w.state

subsection-Safe : (w : Walker) (start count : Option ℕ) → Ensures Safe (subsection w start count)
unfolding Safe
subsection-Safe w none count = tt
subsection-Safe w (some start) none = tt
subsection-Safe w (some start) (some zero) = omega arith
subsection-Safe w (some start) (some (suc n)) =
    if_cases (λ (o : Option ℕ). Ensures Safe (ok_or o xref_geometry >>= λ r. to w (xref_entries r)))
      (ltb (suc n * 20) (2 ^ 64)) _ _ (λ _. omega arith) (λ _. tt)

new-Bounded : Bounded Object.new
unfolding Object.new
new-Bounded = omega arith

trailer_words-Safe :
    (w : Walker) (first : Bytes) (rest : List Bytes) → Ensures Safe (trailer_words w first rest)
unfolding Safe
trailer_words-Safe w first rest =
    if_cases (Ensures Safe) (starts_with first (codes "trailer")) _ _
      (λ _.
        feed_parts-InRoom (feed_word Object.new (drop 7 first)) rest
          (feed_word-Bounded Object.new (drop 7 first) new-Bounded))
      (λ _. tt)

xref_words-Safe : (w : Walker) (words : List Bytes) → Ensures Safe (xref_words w words)
unfolding Safe
xref_words-Safe w [] = omega arith
xref_words-Safe w (first ∷ []) = trailer_words-Safe w first []
xref_words-Safe w (start ∷ count ∷ []) = subsection-Safe w (parse_int start) (parse_int count)
xref_words-Safe w (a ∷ b ∷ c ∷ rest) = trailer_words-Safe w a (b ∷ c ∷ rest)

payload_of-InRoom : (s : ObjectScanner) (o : Option ℕ) → Bounded s → InRoom (payload_of s o)
payload_of-InRoom s none h = omega arith
payload_of-InRoom s (some zero) h = omega arith
payload_of-InRoom s (some (suc n)) h = omega arith

stream_payload-InRoom : (s : ObjectScanner) → Bounded s → InRoom (stream_payload s)
unfolding stream_payload
stream_payload-InRoom s h = payload_of-InRoom s (captured s.length) h

in_object-Safe :
    (w : Walker) (b : ℕ) (r : ObjectScanner × ObjectSignal)
    → Bounded r.0
    → Ensures Safe (in_object w b r)
unfolding Safe
in_object-Safe w b (s, nothing) h = h
in_object-Safe w b (s, dict_closed) h = h
in_object-Safe w b (s, object_ends) h = tt
in_object-Safe w b (s, stream_begins) h = ground (arith, stream_payload-InRoom s h)

in_trailer-Safe :
    (w : Walker) (r : ObjectScanner × ObjectSignal) → Bounded r.0 → Ensures Safe (in_trailer w r)
unfolding Safe
in_trailer-Safe w (s, signal) h =
    if_cases InRoom (closes signal) item (trailer s) (λ _. tt) (λ _. h)

matching-InRoom :
    (s : ObjectScanner) (here : ℕ → State) (n : ℕ)
    → Bounded s
    → (n < 9 → InRoom (here n))
    → n ≤ 9
    → InRoom (matching s here n)
matching-InRoom s here n h k le =
    if_cases InRoom (n == 9) (object s) (here n) (λ _. h) (λ e. k (ground arith))

step-Safe :
    (st : State) (w : Walker) (b : ℕ) → InRoom st → w.state ≡ st → Ensures Safe (step st w b)
unfolding step Safe stream_close_step stream_scan_step
step-Safe (magic matched) w b h e = ground arith
step-Safe header_line w b h e = ground arith
step-Safe item w b h e = ground arith
step-Safe (comment line len) w b h e = ground (arith, length-append {0} line (b ∷ []))
step-Safe (obj_header ints seen) w b h e = ground (arith, new-Bounded)
step-Safe (object s) w b h e = in_object-Safe w b (Object.consume s b) (consume-Bounded s b h)
step-Safe (stream_eol s saw_cr) w b h e = ground (arith, stream_payload-InRoom s h)
step-Safe (stream_bytes s remaining) w b h e = ground arith
step-Safe (stream_close s matched) w b h e = ground arith
step-Safe (stream_scan s matched) w b h e = ground arith
step-Safe (item_keyword token) w b h e =
    ground (arith, length-append {0} token (b ∷ []), consume-Bounded Object.new b new-Bounded)
step-Safe (xref_line line) w b h e =
    ground (arith, length-append {0} line (b ∷ []), xref_words-Safe w (non_empty (split line)))
step-Safe (xref_entries remaining) w b h e = ground arith
step-Safe (trailer s) w b h e = in_trailer-Safe w (Object.consume s b) (consume-Bounded s b h)
step-Safe (startxref_line len seen) w b h e = ground arith

consume-Safe : (w : Walker) (b : ℕ) → Safe w → Safe (consume w b).0
unfolding consume Safe
consume-Safe w b h = counted-Safe (step w.state w b) (step-Safe w.state w b h refl)
  where
    counted-Safe : (r : W Walker) → Ensures Safe r → Safe (counted w r).0
    counted-Safe (ok v) k = k
    counted-Safe (err fault) k = h

-- The walker after it was given each byte, whether it accepted it or not.
unfoldable pub after : Walker → Bytes → Walker
unfolding consume
after w [] = w
after w (b ∷ bs) = after (consume w b).0 bs

after-Safe : (w : Walker) (bs : Bytes) → Safe w → Safe (after w bs)
unfolding after
after-Safe w [] h = h
after-Safe w (b ∷ bs) h = after-Safe (consume w b).0 bs (consume-Safe w b h)

-- Whatever bytes a new walker of documents is given, the counters by which it indexes its arrays stay within
-- them: five bytes of the magic and of a comment, ten of a token or keyword, 128 of a line, nine of
-- `endstream`; an object header has at most two integers; and a payload or a table that it counts down
-- is never at zero, so that counting does not underflow.
pub rooms_hold : (bs : Bytes) → InRoom (after new bs).state
unfolding new Safe
rooms_hold bs = after-Safe new bs (omega arith)
