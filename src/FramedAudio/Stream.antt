-- ===== src/FramedAudio/Stream.antt =====
-- `framed-audio-v1` over a whole stream.
use async_chunker.Chunker.Guarded.{Refuses, drive-Refuses}
use async_chunker.Chunker.Whole.{drive-Chunked, drive_each-drive}
use async_chunker.Chunker.{drive, drive_each}
use async_chunker.Errors.{ChunkError}
use async_chunker.FramedAudio.Laws.{IsChunk, pending, Inv, laws, push_byte-Keeps, initial-Inv}
use async_chunker.FramedAudio.Walker.{Walker, W, consume}
use async_chunker.FramedAudio.Walker as Frames
use async_chunker.FramedAudio.{
  FramedAudioChunker, new, push, finish, push_byte, before, behind, consumed, rejects, end_with,
  end_stream, refusal,
}
use async_chunker.Gear.{Blake3}
use async_chunker.Outcome.Feed.{and_then_failed}
use async_chunker.Prelude.{ℕ, List, ◌++◌, ◌≡◌, refl, true, none, some, arith, Bytes, All, flatten}
use async_chunker.Result.{ok, err}

-- Every chunk is non-empty and at most the maximum long. If the stream is accepted, the chunks concatenate to
-- it and the chunker is as new; if it is rejected, what was emitted before is a prefix of it.
pub audio_stream :
    (blake3 : Blake3) (bytes : Bytes)
    → let o = drive push finish (new blake3) bytes in
      All IsChunk o.emitted
      × (o.error ≡ none → (flatten o.emitted ≡ bytes) × (o.state ≡ new blake3))
      × ((rest : Bytes) × (flatten o.emitted ++ rest ≡ bytes))
audio_stream blake3 bytes =
    let c =
      drive-Chunked (new blake3) push finish IsChunk pending (Inv blake3) (λ d. d ≡ new blake3)
        (laws blake3) bytes in
    (c.fits, λ e. (c.whole e, c.reusable e), (c.unsent, c.is_prefix))

-- How a stream is cut into windows does not change its chunks, its result, or the state left.
pub audio_windows :
    (blake3 : Blake3) (windows : List Bytes)
    → drive_each push finish (new blake3) windows ≡ drive push finish (new blake3) (flatten windows)
audio_windows blake3 =
    drive_each-drive (new blake3) push finish IsChunk pending (Inv blake3) (λ d. d ≡ new blake3)
      (laws blake3)

before_succeeds : (c : FramedAudioChunker) → (before c).error ≡ none
unfolding before
before_succeeds c = ground arith

consumed_rejects :
    (c : FramedAudioChunker) (b : ℕ) (r : Walker × W (Unit {0})) (e : ChunkError)
    → (consumed c b r).error ≡ some e
    → (consumed c b r).state.rejected ≡ true
unfolding consumed behind rejects
consumed_rejects c b (w, ok _) e h = ground arith
consumed_rejects c b (w, err fault) e h = refl

push_byte_rejects :
    (c : FramedAudioChunker) (b : ℕ) (e : ChunkError)
    → (push_byte c b).error ≡ some e
    → (push_byte c b).state.rejected ≡ true
unfolding push_byte
push_byte_rejects c b e h =
    and_then_failed (λ d. d.rejected ≡ true) (before c) (λ d. consumed d b (consume d.walker b)) e
      (λ f. let fine = before_succeeds c in cc)
      (λ _ f. consumed_rejects (before c).state b (consume (before c).state.walker b) e f) h

end_with_rejects :
    (c : FramedAudioChunker) (r : W (Unit {0})) (e : ChunkError)
    → (end_with c r).error ≡ some e
    → (end_with c r).state.rejected ≡ true
unfolding end_with rejects
end_with_rejects c (ok _) e h = ground arith
end_with_rejects c (err fault) e h = refl

-- A stream that failed leaves a chunker that refuses every later `push` and `finish` with the same error,
-- emitting nothing and changing nothing.
pub audio_rejection :
    (blake3 : Blake3) (bytes : Bytes) (e : ChunkError)
    → let o = drive push finish (new blake3) bytes in
      o.error ≡ some e
      → Refuses (λ (c : FramedAudioChunker). c.rejected) refusal push_byte end_stream o.state
unfolding push finish end_stream
audio_rejection blake3 =
    drive-Refuses (λ c. c.rejected) refusal push_byte end_stream (new blake3) IsChunk pending
      (Inv blake3) (λ d. d ≡ new blake3) (λ c i. i.accepting) (push_byte-Keeps blake3)
      (initial-Inv blake3) push_byte_rejects
      (λ c e h. end_with_rejects c (Frames.finish c.walker) e h)
