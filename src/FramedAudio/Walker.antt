-- ===== src/FramedAudio/Walker.antt =====
-- src/chunker/framed_audio/walker.rs: the walker over frames, tags and metadata blocks.
use async_chunker.FramedAudio.Headers.{
  AudioFault, not_framed_audio, bad_frame_sync, bad_tag, trailing_bytes, truncated, at, body_len,
  adts_frame_len, block,
}
use async_chunker.FramedAudio.Mp3.{frame_len}
use async_chunker.Prelude.Text.{codes, bytes_eq}
use async_chunker.Prelude.{
  ℕ, zero, ◌+◌, ◌-◌, ◌/◌, ◌%◌, Bool, true, false, not, ◌&&◌, Option, none, some, ltb, ◌==◌,
  if◌then◌else◌, Bytes, get_or, set, take, replicate,
}
use async_chunker.Result.{Result, ok, err, ◌>>=◌}

abbrev pub header_max : ℕ
header_max = 10

abbrev pub trailer_len : ℕ
trailer_len = 128

pub data Family : Type 0 where
  mp3 adts flac : Family

pub data After : Type 0 where
  boundary flac_meta flac_audio : After

pub data State : Type 0 where
  sniff : ℕ → State
  id3_header : ℕ → State
  frame_header : ℕ → State
  frame_payload : ℕ → State
  trailer : ℕ → State
  complete : State
  flac_meta_header : ℕ → State
  opaque : ℕ → After → State
  audio : State

pub record Walker : Type 0 where
  pub state : State
  pub header : Bytes
  pub family : Option Family
  pub offset : ℕ
  pub seen_frame : Bool

abbrev pub W : Type 0 → Type 0
W = Result AudioFault

unfoldable pub new : Walker
new = record {
  state = sniff 0;
  header = replicate header_max 0;
  family = none;
  offset = 0;
  seen_frame = false;
}

abbrev pub is_seam : State → Bool
is_seam (sniff zero) = true
is_seam (flac_meta_header zero) = true
is_seam _ = false

unfoldable pub at_seam : Walker → Bool
at_seam w = is_seam w.state

abbrev pub is_opaque : State → Bool
is_opaque (opaque remaining next) = true
is_opaque audio = true
is_opaque _ = false

unfoldable pub in_opaque : Walker → Bool
in_opaque w = is_opaque w.state

-- The state that `arrive` sets.
abbrev pub arrive : After → State
arrive boundary = sniff 0
arrive flac_meta = flac_meta_header 0
arrive flac_audio = audio

-- The state that `begin_opaque` sets.
abbrev pub begin_opaque : ℕ → After → State
begin_opaque remaining next = if remaining == 0 then arrive next else opaque remaining next

-- `self.header[len] = byte`, into an array of `u8`.
abbrev pub put : Walker → ℕ → ℕ → Walker
put w len byte = record w { header = set w.header len (byte % 256) }

abbrev pub is_adts : Option Family → Bool
is_adts (some adts) = true
is_adts _ = false

-- `matches!(self.family, Some(Family::Mp3 | Family::Adts))`
abbrev is_framed : Option Family → Bool
is_framed none = false
is_framed (some flac) = false
is_framed (some _) = true

abbrev is_none : Option Family → Bool
is_none none = true
is_none (some f) = false

-- The family that a second sync byte locks in.
abbrev locked : Option Family → ℕ → Option Family
locked none byte = some (if byte / 2 % 4 == 0 then adts else mp3)
locked (some f) byte = some f

-- The arm `0xFF` of `sniff`.
unfoldable pub sniff_sync : Walker → ℕ → ℕ → W Walker
sniff_sync w byte len =
    if len == 0
    then ok (record w { state = sniff 1 })
    else if not (byte / 32 % 8 == 7)
    then err bad_frame_sync
    else ok (record w { family = locked w.family byte; state = frame_header 2 })

-- The arm `b'f'` of `sniff`.
unfoldable pub sniff_flac : Walker → ℕ → W Walker
unfolding bytes_eq
sniff_flac w len =
    if ltb (len + 1) 4
    then ok (record w { state = sniff (len + 1) })
    else if not (bytes_eq (take 4 w.header) (codes "fLaC"))
    then err not_framed_audio
    else ok (record w { family = some flac; state = flac_meta_header 0 })

-- `sniff`, with the byte in its place in the header.
unfoldable pub sniffed : Walker → ℕ → ℕ → W Walker
unfolding sniff_sync sniff_flac
sniffed w byte len =
    let first = at w.header 0 in
    if first == 0xff
    then sniff_sync w byte len
    else if first == b'I'
    then ok (record w { state = if ltb (len + 1) 3 then sniff (len + 1) else id3_header 3 })
    else if first == b'T' && is_framed w.family
    then ok (record w { state = trailer 1 })
    else if first == b'f' && is_none w.family
    then sniff_flac w len
    else err (if is_none w.family then not_framed_audio else bad_frame_sync)

abbrev pub needed : Option Family → ℕ
needed family = if is_adts family then 7 else 4

unfoldable pub frame_len_of : Option Family → Bytes → W ℕ
unfolding adts_frame_len frame_len
frame_len_of family header = if is_adts family then adts_frame_len header else frame_len header

-- The state that follows a payload of that length.
abbrev pub frame_left : ℕ → State
frame_left remaining = if remaining == 0 then sniff 0 else frame_payload remaining

unfoldable pub step : State → Walker → ℕ → W Walker
unfolding sniffed body_len frame_len_of block
step (sniff len) w byte = sniffed (put w len byte) byte len
step (id3_header len) w byte =
    let v = put w len byte in
    if ltb (len + 1) header_max
    then ok (record v { state = id3_header (len + 1) })
    else do body ← body_len v.header; ok (record v { state = begin_opaque body boundary })
step (frame_header len) w byte =
    let v = put w len byte in
    if ltb (len + 1) (needed v.family) then ok (record v { state = frame_header (len + 1) }) else do
      length ← frame_len_of v.family v.header
      ok (record v { seen_frame = true; state = frame_left (length - needed v.family) })
step (frame_payload remaining) w byte = ok (record w { state = frame_left (remaining - 1) })
step (trailer len) w byte =
    if ltb len 3 && not (byte == get_or (codes "TAG") len 0)
    then err bad_tag
    else ok (record w { state = if len + 1 == trailer_len then complete else trailer (len + 1) })
step complete w byte = err trailing_bytes
step (flac_meta_header len) w byte =
    let v = put w len byte in
    if ltb (len + 1) 4 then ok (record v { state = flac_meta_header (len + 1) }) else do
      b ← block v.header (not v.seen_frame)
      ok (record v {
        seen_frame = true;
        state = begin_opaque b.length (if b.last then flac_audio else flac_meta);
      })
step (opaque remaining next) w byte = ok (record w { state = begin_opaque (remaining - 1) next })
step audio w byte = ok w

abbrev pub moved_on : Walker → Walker
moved_on w = record w { offset = w.offset + 1 }

-- The byte is counted also where the step failed.
unfoldable pub counted : Walker → W Walker → Walker × W (Unit {0})
counted w (ok v) = (moved_on v, ok tt)
counted w (err fault) = (moved_on w, err fault)

unfoldable pub consume : Walker → ℕ → Walker × W (Unit {0})
unfolding counted step
consume w byte = counted w (step w.state w byte)

-- The states in which `finish` accepts.
abbrev may_end : State → Bool → Bool
may_end (sniff zero) seen_frame = seen_frame
may_end complete seen_frame = true
may_end audio seen_frame = true
may_end _ seen_frame = false

unfoldable pub finish : Walker → W (Unit {0})
finish w = if may_end w.state w.seen_frame then ok tt else err truncated
