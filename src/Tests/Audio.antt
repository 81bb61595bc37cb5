-- ===== src/Tests/Audio.antt =====
-- Runs of the framed-audio chunker.
use async_chunker.Chunker.{drive}
use async_chunker.Errors.{malformed_profile_input}
use async_chunker.FramedAudio.Headers.{into_error}
use async_chunker.FramedAudio.Laws.{IsChunk}
use async_chunker.FramedAudio.Mp3.{frame_len-bounds, frame_len}
use async_chunker.FramedAudio.Stream.{audio_stream}
use async_chunker.FramedAudio.Walker as Frames
use async_chunker.FramedAudio.{new, push, finish}
use async_chunker.Prelude.{◌≤◌, ◌≡◌, refl, [], ◌∷◌, ◌++◌, none, some, Bytes, All, flatten}
use async_chunker.Result.{Ensures, ok}
use async_chunker.Tests.{counting}

-- Two ADTS frames without a payload.
abbrev frames : Bytes
frames = 0xff ∷ 0xf1 ∷ 0x50 ∷ 0 ∷ 0 ∷ 0xe0 ∷ 0 ∷ 0xff ∷ 0xf1 ∷ 0x50 ∷ 0 ∷ 0 ∷ 0xe0 ∷ 0 ∷ []

-- The first frame, and the half of the second.
abbrev cut_frames : Bytes
cut_frames = 0xff ∷ 0xf1 ∷ 0x50 ∷ 0 ∷ 0 ∷ 0xe0 ∷ 0 ∷ 0xff ∷ 0xf1 ∷ []

accepts_frames : (drive push finish (new counting) frames).error ≡ none
unfolding drive push finish new Frames.consume Frames.new Frames.finish
accepts_frames = refl

audio_stream_example :
    let o = drive push finish (new counting) frames in
    All IsChunk o.emitted
    × (o.error ≡ none → (flatten o.emitted ≡ frames) × (o.state ≡ new counting))
    × ((rest : Bytes) × (flatten o.emitted ++ rest ≡ frames))
audio_stream_example = audio_stream counting frames

rejects_cut_frames :
    (drive push finish (new counting) cut_frames).error
    ≡ some (malformed_profile_input "framed-audio-v1" 9 "stream ends inside a frame, tag, or block")
unfolding drive push finish new Frames.consume Frames.new Frames.finish into_error
rejects_cut_frames = refl

-- MPEG 1, layer III, 128 kbit/s at 44.1 kHz.
abbrev mp3_header : Bytes
mp3_header = 0xff ∷ 0xfb ∷ 0x90 ∷ 0 ∷ []

measures : frame_len mp3_header ≡ ok 417
unfolding frame_len
measures = refl

frame_len-bounds_example : Ensures (λ n. (4 ≤ n) × (n ≤ 8191)) (frame_len mp3_header)
frame_len-bounds_example = frame_len-bounds mp3_header
