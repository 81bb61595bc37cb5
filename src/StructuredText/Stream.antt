-- ===== src/StructuredText/Stream.antt =====
-- `structured-text-v1` over a whole stream.
use mathlib.Core.Path.{subst}
use async_chunker.Chunker.{drive, drive_each}
use async_chunker.Chunker.Whole.{drive-Chunked, drive_each-drive}
use async_chunker.Gear.{Blake3}
use async_chunker.Outcome.Feed.{and_then-ok}
use async_chunker.Outcome.{Outcome, feed, and_then}
use async_chunker.Prelude.{
  ℕ, List, [], ◌∷◌, ◌++◌, ◌≡◌, ◌↔◌, refl, sym, ap, ◌∙◌, none, true, Bool, Bytes, All, flatten,
  arith,
}
use async_chunker.Result.{Result, ok, err, ◌>>=◌}
use async_chunker.StructuredText.End.{
  IsPiece, laws, push-Keeps, initial-Inv, push-accepting, finish-accepting,
}
use async_chunker.StructuredText.Laws.{IsTextChunk, pending, Inv}
use async_chunker.StructuredText.{
  StructuredTextChunker, new, push, finish, push_byte, scanned, place, taken, end_stream,
  emit_to_last_boundary,
}
use async_chunker.Utf8.Scalars.{IsText, IsText-nil, IsText-append}
use async_chunker.Utf8.Scan.{scan, utf8_iff}
use async_chunker.Utf8.{Utf8Scanner, Utf8Fault, start, at_boundary}
use async_chunker.Utf8

-- Every chunk is whole Unicode scalars, non-empty and at most the maximum long. If the stream is
-- accepted, the chunks concatenate to it and the chunker is as new; if it is rejected, what was
-- emitted before is a prefix of it.
pub text_stream :
    (blake3 : Blake3) (bytes : Bytes)
    → let o = drive push finish (new blake3) bytes in
      All IsPiece o.emitted
      × (o.error ≡ none → (flatten o.emitted ≡ bytes) × (o.state ≡ new blake3))
      × ((rest : Bytes) × (flatten o.emitted ++ rest ≡ bytes))
text_stream blake3 bytes =
    let c =
      drive-Chunked (new blake3) push finish IsPiece pending (Inv blake3) (λ d. d ≡ new blake3)
        (laws blake3) bytes in
    (c.fits, λ e. (c.whole e, c.reusable e), (c.unsent, c.is_prefix))

-- Every chunk that `push` emits, on a rejected stream too, is whole Unicode scalars, has the minimum
-- length at least and the maximum at most, and ends after a line end or a soft break, unless it is
-- within three bytes of the maximum.
pub text_chunks :
    (blake3 : Blake3) (bytes : Bytes) → All IsTextChunk (push (new blake3) bytes).emitted
text_chunks blake3 bytes = (push-Keeps blake3 (new blake3) bytes (initial-Inv blake3)).fits

-- How a stream is cut into windows does not change its chunks, its result, or the state left.
pub text_windows :
    (blake3 : Blake3) (windows : List Bytes)
    → drive_each push finish (new blake3) windows ≡ drive push finish (new blake3) (flatten windows)
text_windows blake3 =
    drive_each-drive (new blake3) push finish IsPiece pending (Inv blake3) (λ d. d ≡ new blake3)
      (laws blake3)

place-keeps_scanner :
    (c : StructuredTextChunker) (b : ℕ) (completed : Bool)
    → ((place c b completed).error ≡ none) × ((place c b completed).state.utf8 ≡ c.utf8)
unfolding place emit_to_last_boundary
place-keeps_scanner c b completed = ground arith

-- The scanner reached `t`, and nothing failed.
abbrev Reaches : Outcome StructuredTextChunker → Utf8Scanner → Type 0
Reaches o t = (o.error ≡ none) × (o.state.utf8 ≡ t)

scanned-Reaches :
    (c : StructuredTextChunker) (b : ℕ) (bs : Bytes) (t : Utf8Scanner)
    (r : Result Utf8Fault (Utf8Scanner × Bool))
    → (r >>= (λ q. scan q.0 bs)) ≡ ok t
    → ((d : StructuredTextChunker) → scan d.utf8 bs ≡ ok t → Reaches (feed push_byte d bs) t)
    → Reaches (and_then (scanned c b r) (λ d. feed push_byte d bs)) t
unfolding scanned
scanned-Reaches c b bs t (ok (u, completed)) e later =
    let o = place (taken c u b) b completed in
    let (fine, same) = place-keeps_scanner (taken c u b) b completed in
    let (none_later, there) = later o.state (ap (λ (v : Utf8Scanner). scan v bs) same ∙ e) in
    let run = and_then-ok o (λ d. feed push_byte d bs) fine in
    (
      ap (λ (p : Outcome StructuredTextChunker). p.error) run ∙ none_later,
      ap (λ (p : Outcome StructuredTextChunker). p.state.utf8) run ∙ there,
    )
scanned-Reaches c b bs t (err fault) e later = cc

-- A stream that the scanner accepts is accepted, and leaves the scanner's state.
feed-Reaches :
    (bs : Bytes) (c : StructuredTextChunker) (t : Utf8Scanner)
    → scan c.utf8 bs ≡ ok t
    → Reaches (feed push_byte c bs) t
unfolding feed scan push_byte
feed-Reaches [] c t e = (refl, cc)
feed-Reaches (b ∷ bs) c t e =
    scanned-Reaches c b bs t (Utf8.push c.utf8 b) e (λ d. feed-Reaches bs d t)

end_stream-error :
    (c : StructuredTextChunker) → at_boundary c.utf8 ≡ true → (end_stream c).error ≡ none
unfolding end_stream
end_stream-error c e = ground arith

pieces-IsText : (chunks : List Bytes) → All IsPiece chunks → IsText (flatten chunks)
unfolding flatten
pieces-IsText [] h = IsText-nil
pieces-IsText (chunk ∷ chunks) (h, hs) =
    IsText-append chunk (flatten chunks) h.is_text (pieces-IsText chunks hs)

accepts-text :
    (blake3 : Blake3) (bytes : Bytes)
    → IsText bytes
    → (drive push finish (new blake3) bytes).error ≡ none
unfolding drive
accepts-text blake3 bytes x =
    let i = initial-Inv blake3 in
    let (t, e, closed) = (utf8_iff bytes).1 x in
    let o = push (new blake3) bytes in
    let (fine, there) : Reaches o t =
      subst (λ (p : Outcome StructuredTextChunker). Reaches p t)
        (sym (push-accepting blake3 (new blake3) bytes i.holds.accepting))
        (feed-Reaches bytes (new blake3) t (unfold new in e)) in
    let j = (push-Keeps blake3 (new blake3) bytes i).keeps fine in
    ap (λ (p : Outcome StructuredTextChunker). p.error) (and_then-ok o finish fine)
    ∙ ap (λ (p : Outcome StructuredTextChunker). p.error)
        (finish-accepting blake3 o.state j.holds.accepting)
    ∙ end_stream-error o.state (ap at_boundary there ∙ closed)

-- The stream is accepted exactly when its bytes are the UTF-8 encoding of Unicode scalar values.
pub accepts_iff :
    (blake3 : Blake3) (bytes : Bytes)
    → ((drive push finish (new blake3) bytes).error ≡ none) ↔ IsText bytes
accepts_iff blake3 bytes =
    let (pieces, whole, _) = text_stream blake3 bytes in
    (
      λ e.
          subst IsText ((whole e).0)
            (pieces-IsText (drive push finish (new blake3) bytes).emitted pieces),
      accepts-text blake3 bytes,
    )
