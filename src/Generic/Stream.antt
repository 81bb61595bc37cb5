-- ===== src/Generic/Stream.antt =====
-- `generic-cdc-v1` over a whole stream.
use async_chunker.Chunker.{drive, drive_each}
use async_chunker.Chunker.Whole.{drive-Chunked, drive_each-drive}
use async_chunker.Constants.{chunk_max}
use async_chunker.Gear.{Blake3}
use async_chunker.Generic.{GenericCdcChunker, new, push, finish, flush}
use async_chunker.Generic.Laws.{
  Inv, new-Inv, laws, IsChunk, WithinEnvelope, IsTail, push-Keeps, push-error,
}
use async_chunker.Outcome.Feed.{and_then-ok}
use async_chunker.Outcome.{Outcome}
use async_chunker.Prelude.{
  ◌≤◌, ◌<◌, List, [], ◌∷◌, ◌++◌, ◌≡◌, refl, ap, ◌∙◌, none, arith, Bytes, All, flatten, length,
  append-nil,
}

flush-error : (c : GenericCdcChunker) (held : Bytes) → (flush c held).error ≡ none
unfolding flush
flush-error c [] = refl
flush-error c (b ∷ bs) = refl

drive-error : (c : GenericCdcChunker) (bytes : Bytes) → (drive push finish c bytes).error ≡ none
unfolding drive finish
drive-error c bytes =
    ap (λ (o : Outcome GenericCdcChunker). o.error)
      (and_then-ok (push c bytes) (λ t. flush t t.buffer) (push-error c bytes))
    ∙ flush-error (push c bytes).state (push c bytes).state.buffer

-- Whatever the bytes, a fresh generic chunker accepts them; the chunks it emits up to and including
-- the final flush are non-empty, at most the maximum long, and concatenate to the input; and it is
-- then as good as new.
pub generic_stream :
    (blake3 : Blake3) (bytes : Bytes)
    → let o = drive push finish (new blake3) bytes in
      (o.error ≡ none)
      × (flatten o.emitted ≡ bytes)
      × All IsChunk o.emitted
      × (o.state ≡ new blake3)
generic_stream blake3 bytes =
    let c =
      drive-Chunked (new blake3) push finish IsChunk (λ d. d.buffer) (Inv blake3)
        (λ d. d ≡ new blake3) (laws blake3) bytes in
    let e = drive-error (new blake3) bytes in (e, c.whole e, c.fits, c.reusable e)

flush-IsTail :
    (c : GenericCdcChunker) (held : Bytes)
    → length held < chunk_max
    → All IsTail (flush c held).emitted
      × (flatten (flush c held).emitted ≡ held)
      × (length (flush c held).emitted ≤ 1)
unfolding flush flatten
flush-IsTail c [] h = (tt, refl, omega arith)
flush-IsTail c (b ∷ bs) h = (((omega arith, h), tt), append-nil (b ∷ bs), omega arith)

-- Every chunk but the last lies within the envelope: each chunk that `push` emits has the minimum
-- length at least and the maximum at most, less than the maximum is left, and `finish` emits that
-- rest as a single chunk, or nothing if there is none.
pub generic_sizes :
    (blake3 : Blake3) (bytes : Bytes)
    → let o = push (new blake3) bytes in
      All WithinEnvelope o.emitted
      × All IsTail (finish o.state).emitted
      × (flatten (finish o.state).emitted ≡ o.state.buffer)
      × (length (finish o.state).emitted ≤ 1)
unfolding finish
generic_sizes blake3 bytes =
    let k = push-Keeps blake3 (new blake3) bytes (new-Inv blake3) in
    let i = k.keeps (push-error (new blake3) bytes) in
    let c = (push (new blake3) bytes).state in
    let (tails, rest, one) = flush-IsTail c c.buffer i.room in (k.fits, tails, rest, one)

-- How a stream is cut into windows does not change its chunks, its result, or the state left.
pub generic_windows :
    (blake3 : Blake3) (windows : List Bytes)
    → drive_each push finish (new blake3) windows ≡ drive push finish (new blake3) (flatten windows)
generic_windows blake3 =
    drive_each-drive (new blake3) push finish IsChunk (λ d. d.buffer) (Inv blake3)
      (λ d. d ≡ new blake3) (laws blake3)

at_rest-new :
    (blake3 : Blake3) (c : GenericCdcChunker) → Inv blake3 c → c.buffer ≡ [] → c ≡ new blake3
at_rest-new blake3 c i e =
    let h = i.at_rest e in
    (λ k. record c { buffer = e k; hash = record c.hash { hash = h k } }) ∙ i.parameters

-- Once a cut falls after the bytes `xs`, what follows is chunked as a stream of its own, whatever `xs` was: the
-- chunks of `xs ++ ys` are those emitted for `xs` and then those of `ys`.
pub generic_resync :
    (blake3 : Blake3) (xs ys : Bytes)
    → (push (new blake3) xs).state.buffer ≡ []
    → (push (new blake3) (xs ++ ys)).emitted
      ≡ (push (new blake3) xs).emitted ++ (push (new blake3) ys).emitted
generic_resync blake3 xs ys e =
    let c = push (new blake3) xs in
    let i =
      (push-Keeps blake3 (new blake3) xs (new-Inv blake3)).keeps (push-error (new blake3) xs) in
    ap (λ (o : Outcome GenericCdcChunker). o.emitted)
      ((laws blake3).push_windows (new blake3) xs ys (new-Inv blake3)
        ∙ and_then-ok c (λ t. push t ys) (push-error (new blake3) xs))
    ∙ ap (λ (t : GenericCdcChunker). c.emitted ++ (push t ys).emitted)
        (at_rest-new blake3 c.state i e)
