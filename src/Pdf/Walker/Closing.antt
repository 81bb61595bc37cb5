-- ===== src/Pdf/Walker/Closing.antt =====
-- The bytes that close a document are taken.
use async_chunker.Pdf.Object.{is_whitespace, is_line_end}
use async_chunker.Pdf.Walker.Past.{Ended}
use async_chunker.Pdf.Walker.Payload.{all_white}
use async_chunker.Pdf.Walker.Taken.{taken, taken-append, taken_on}
use async_chunker.Pdf.Walker.{State, item, comment, Walker, new, consume, step, finish}
use async_chunker.Prelude.Text.{codes, bytes_eq}
use async_chunker.Prelude.{
  ℕ, ◌+◌, ◌≡◌, refl, sym, ap, ◌∙◌, Bool, true, false, none, some, [], ◌∷◌, ◌++◌, arith, Bytes,
}
use async_chunker.Result.{ok}

-- The walker where an item may begin.
abbrev between : ℕ → Bool → Bool → Walker
between n eof pending = record {
  state = item;
  offset = n;
  eof_last = eof;
  boundary_pending = pending;
}

-- The walker takes the bytes, and then the end.
abbrev pub EndsBehind : Walker → Bytes → Type 0
EndsBehind v bytes = (w : Walker) × (taken v bytes ≡ some w) × (finish w ≡ ok tt)

white_read :
    (b n : ℕ) (pending : Bool)
    → is_whitespace b ≡ true
    → consume (between n true pending) b ≡ (between (n + 1) true true, ok none)
unfolding consume step
white_read b n pending h = rw (h, step) refl

white_taken :
    (white : Bytes) (n : ℕ) (pending : Bool)
    → all_white white ≡ true
    → EndsBehind (between n true pending) white
unfolding taken consume step finish
white_taken [] n pending h = (between n true pending, refl, refl)
white_taken (b ∷ bs) n pending h =
    let (w, read, ends) = white_taken bs (n + 1) true (ground arith) in
    (
      w,
      taken_on (between n true pending) (between (n + 1) true true) b bs
            (white_read b n pending (ground arith))
          ∙ read,
      ends,
    )

-- The walker behind the comment's five bytes.
abbrev commenting : ℕ → Walker
commenting n = record {
  state = comment (codes "%%EOF") 5;
  offset = n;
  eof_last = false;
  boundary_pending = false;
}

comment_read :
    (line_end n : ℕ)
    → is_line_end line_end ≡ true
    → consume (commenting n) line_end ≡ (between (n + 1) true true, ok none)
unfolding consume step bytes_eq
comment_read line_end n h = rw (h, step) refl

comment_taken :
    (line_end n : ℕ) (eof pending : Bool) (white : Bytes)
    → is_line_end line_end ≡ true
    → taken (between n eof pending) (codes "%%EOF" ++ line_end ∷ white)
      ≡ taken (between (n + 1 + 1 + 1 + 1 + 1 + 1) true true) white
unfolding taken consume step bytes_eq is_whitespace
comment_taken line_end n eof pending white h =
    let far = n + 1 + 1 + 1 + 1 + 1 in
    taken_on (commenting far) (between (far + 1) true true) line_end white
      (comment_read line_end far h)

ending_taken :
    (v : Walker) (line_end : ℕ) (white : Bytes)
    → v.state ≡ item
    → is_line_end line_end ≡ true
    → all_white white ≡ true
    → EndsBehind v (codes "%%EOF" ++ line_end ∷ white)
ending_taken v line_end white s h k =
    let n = v.offset in
    let (w, read, ends) = white_taken white (n + 1 + 1 + 1 + 1 + 1 + 1) true k in
    (
      w,
      ap (λ (t : State). taken (record v { state = t }) (codes "%%EOF" ++ line_end ∷ white)) s
          ∙ comment_taken line_end n v.eof_last v.boundary_pending white h
          ∙ read,
      ends,
    )

-- A document that ends so is taken whole.
pub ended_taken : (bytes : Bytes) → Ended bytes → EndsBehind new bytes
ended_taken bytes e =
    let (v, reached, here) = e.at_item in
    let closing = codes "%%EOF" ++ e.line_end ∷ e.white in
    let (w, read, ends) = ending_taken v e.line_end e.white here e.is_line_end e.is_white in
    (w, ap (taken new) (sym e.split) ∙ taken-append new v e.before closing reached ∙ read, ends)
