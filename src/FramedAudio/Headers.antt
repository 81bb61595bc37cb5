-- ===== src/FramedAudio/Headers.antt =====
-- src/chunker/framed_audio/fault.rs, id3.rs, adts.rs and flac.rs: why a stream is rejected, and the
-- headers that fix the length of a tag, a frame or a metadata block.
use async_chunker.Errors.{ChunkError, malformed_profile_input}
use async_chunker.Prelude.Text.{codes, bytes_eq}
use async_chunker.Prelude.{
  ℕ, ◌+◌, ◌*◌, ◌/◌, ◌%◌, Bool, not, ◌&&◌, String, [], ◌∷◌, ltb, leb, ◌==◌, if◌then◌else◌, Bytes,
  get_or, take, drop,
}
use async_chunker.Profile.{framed_audio_v1, name}
use async_chunker.Result.{Result, ok, err}

pub data AudioFault : Type 0 where
  not_framed_audio bad_frame_sync bad_frame_header free_format_bitrate bad_frame_length : AudioFault
  bad_tag bad_metadata_block trailing_bytes truncated : AudioFault

detail : AudioFault → String
detail not_framed_audio = "stream is not a known framed-audio format"
detail bad_frame_sync = "frame boundary holds no frame sync, tag, or trailer"
detail bad_frame_header = "frame header carries a reserved field"
detail free_format_bitrate = "free-format MPEG bitrate"
detail bad_frame_length = "ADTS frame length is smaller than its header"
detail bad_tag = "malformed ID3 tag"
detail bad_metadata_block = "malformed FLAC metadata block"
detail trailing_bytes = "bytes after the `ID3v1` trailer"
detail truncated = "stream ends inside a frame, tag, or block"

unfoldable pub into_error : AudioFault → ℕ → ChunkError
unfolding detail name
into_error fault offset = malformed_profile_input (name framed_audio_v1) offset (detail fault)

-- An entry of a header, which is an array of `u8`.
abbrev pub at : Bytes → ℕ → ℕ
at header i = get_or header i 0 % 256

-- The loop of `body_len` over the size bytes; shifts left by seven.
unfoldable pub syncsafe : ℕ → Bytes → Result AudioFault ℕ
syncsafe size [] = ok size
syncsafe size (b ∷ bs) =
    let rest = syncsafe (size * 128 + b % 256) bs in
    if b % 256 / 128 == 0 then rest else err bad_tag

-- `id3::body_len`
unfoldable pub body_len : Bytes → Result AudioFault ℕ
unfolding syncsafe bytes_eq
body_len header =
    if not (bytes_eq (take 3 header) (codes "ID3"))
    then err bad_tag
    else elim (syncsafe 0 (take 4 (drop 6 header))) [
      | ok size ↦ ok (size + (if at header 5 / 16 % 2 == 1 then 10 else 0))
      | err fault ↦ err fault
    ]

-- `adts::frame_len`
unfoldable pub adts_frame_len : Bytes → Result AudioFault ℕ
adts_frame_len header =
    let length = at header 3 % 4 * 2048 + at header 4 * 8 + at header 5 / 32 in
    let minimum = if at header 1 % 2 == 1 then 7 else 9 in
    if at header 2 / 4 % 16 == 15
    then err bad_frame_header
    else if ltb length minimum
    then err bad_frame_length
    else ok length

pub record FlacBlock : Type 0 where
  pub last : Bool
  pub length : ℕ

-- `flac::block`
unfoldable pub block : Bytes → Bool → Result AudioFault FlacBlock
block header first =
    let kind = at header 0 % 128 in
    if kind == 127
    then err bad_metadata_block
    else if first && not (kind == 0)
    then err bad_metadata_block
    else ok (record {
      last = leb 128 (at header 0);
      length = at header 1 * 65536 + at header 2 * 256 + at header 3;
    })
