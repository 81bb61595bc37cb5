-- ===== src/FramedAudio.antt =====
-- src/chunker/framed_audio/chunker.rs: the `framed-audio-v1` chunker, which cuts at the seams between
-- frames, and by content inside tags, metadata and FLAC audio.
pub mod Headers
pub mod Mp3
pub mod Walker
pub mod Room
pub mod Laws
pub mod Stream
use async_chunker.Chunker.Guarded
use async_chunker.Constants.{
  chunk_min, chunk_target, chunk_max, framed_audio_strict_mask, framed_audio_relaxed_mask,
}
use async_chunker.Errors.{ChunkError, profile_stream_rejected}
use async_chunker.FramedAudio.Headers.{AudioFault, into_error}
use async_chunker.FramedAudio.Walker.{Walker as FrameWalker, W, at_seam, in_opaque, consume}
use async_chunker.FramedAudio.Walker as Frames
use async_chunker.Gear
use async_chunker.Gear.{
  Blake3, GearHash, update, cuts, reset, generic_strict_mask, generic_relaxed_mask,
}
use async_chunker.Outcome.{Outcome, emits, fails, succeed, and_then}
use async_chunker.Prelude.{
  ℕ, ◌-◌, Bool, true, false, not, ◌&&◌, [], ◌∷◌, ◌++◌, ltb, leb, if◌then◌else◌, Bytes, length,
  is_empty,
}
use async_chunker.Profile.{framed_audio_v1, name}
use async_chunker.Result.{Result, ok, err}

abbrev pub forced_seam_limit : ℕ
forced_seam_limit = chunk_max - 8192

pub record FramedAudioChunker : Type 0 where
  pub walker : FrameWalker
  pub hash : GearHash
  pub buffer : Bytes
  pub rejected : Bool

unfoldable pub new : Blake3 → FramedAudioChunker
unfolding Gear.new Frames.new
new blake3 = record {
  walker = Frames.new;
  hash = Gear.new blake3 "legra/framed-audio-v1/gear";
  buffer = [];
  rejected = false;
}

unfoldable pub rejects : FramedAudioChunker → AudioFault → Outcome FramedAudioChunker
unfolding into_error
rejects c fault =
    fails (record c { rejected = true; buffer = [] }) (into_error fault c.walker.offset)

unfoldable pub cut_at_seam : FramedAudioChunker → Bool
unfolding cuts
cut_at_seam c =
    let len = length c.buffer in
    if ltb len chunk_min
    then false
    else if leb forced_seam_limit len
    then true
    else cuts c.hash
        (if ltb len chunk_target then framed_audio_strict_mask else framed_audio_relaxed_mask)

unfoldable pub cut_in_opaque : FramedAudioChunker → Bool
unfolding cuts generic_strict_mask generic_relaxed_mask
cut_in_opaque c =
    let len = length c.buffer in
    if ltb len chunk_min
    then false
    else if leb chunk_max len
    then true
    else cuts c.hash (if ltb len chunk_target then generic_strict_mask else generic_relaxed_mask)

-- What `emit_buffer` leaves.
abbrev pub emptied : FramedAudioChunker → FramedAudioChunker
emptied c = record c { buffer = []; hash = reset c.hash }

abbrev pub emit_buffer : FramedAudioChunker → Outcome FramedAudioChunker
emit_buffer c = emits (emptied c) (c.buffer ∷ [])

-- The three parts of the loop's body in `push`: before the walker, after it, and both with it.
unfoldable pub before : FramedAudioChunker → Outcome FramedAudioChunker
unfolding at_seam cut_at_seam
before c =
    if at_seam c.walker && not (is_empty c.buffer) && cut_at_seam c
    then emit_buffer c
    else succeed c

abbrev pub taken : FramedAudioChunker → FrameWalker → ℕ → FramedAudioChunker
taken c walker byte = record c {
  walker = walker;
  buffer = c.buffer ++ byte ∷ [];
  hash = update c.hash byte;
}

unfoldable pub behind : FramedAudioChunker → Outcome FramedAudioChunker
unfolding in_opaque cut_in_opaque
behind c = if in_opaque c.walker && cut_in_opaque c then emit_buffer c else succeed c

unfoldable pub consumed :
    FramedAudioChunker → ℕ → FrameWalker × W (Unit {0}) → Outcome FramedAudioChunker
unfolding behind rejects update
consumed c byte (walker, ok _) = behind (taken c walker byte)
consumed c byte (walker, err fault) = rejects (record c { walker = walker }) fault

unfoldable pub push_byte : FramedAudioChunker → ℕ → Outcome FramedAudioChunker
unfolding before consumed consume and_then
push_byte c byte = and_then (before c) (λ d. consumed d byte (consume d.walker byte))

abbrev pub refusal : ChunkError
refusal = profile_stream_rejected "framed-audio-v1"

unfoldable pub push : FramedAudioChunker → Bytes → Outcome FramedAudioChunker
unfolding push_byte Guarded.push
push = Guarded.push (λ c. c.rejected) refusal push_byte

unfoldable pub end_with : FramedAudioChunker → W (Unit {0}) → Outcome FramedAudioChunker
unfolding rejects Frames.new
end_with c (ok _) =
    if not (is_empty c.buffer)
    then emits (record (emptied c) { walker = Frames.new }) (c.buffer ∷ [])
    else succeed (record c { walker = Frames.new })
end_with c (err fault) = rejects c fault

unfoldable pub end_stream : FramedAudioChunker → Outcome FramedAudioChunker
unfolding end_with Frames.finish
end_stream c = end_with c (Frames.finish c.walker)

unfoldable pub finish : FramedAudioChunker → Outcome FramedAudioChunker
unfolding end_stream Guarded.finish
finish = Guarded.finish (λ c. c.rejected) refusal end_stream
