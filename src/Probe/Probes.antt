-- ===== src/Probe/Probes.antt =====
-- src/probe/probes.rs: the probes, and their tables of both versions.
use async_chunker.Prelude.Text.{bytes_eq, one_of, starts_with, codes}
use async_chunker.Prelude.{
  ℕ, zero, suc, ◌+◌, ◌-◌, ◌*◌, Bool, true, false, not, ◌&&◌, ◌||◌, Option, none, some, List, [],
  ◌∷◌, map, leb, ◌==◌, if◌then◌else◌, Bytes, length, take, drop, get_or, bit_and,
}
use async_chunker.Probe.Text.{is_structured_text_prefix}
use async_chunker.Profile.{
  ChunkingProfile, structured_text_v1, zip_v1, isobmff_v1, matroska_v1, mpegts_v1, framed_audio_v1,
  ooxml_v1, pdf_v1,
}

pub record Probe : Type 0 where
  pub profile : ChunkingProfile
  pub matches : Bytes → Bool

-- `prefix.get(at)` and `prefix.get(from..to)`
abbrev pub byte_at : Bytes → ℕ → Option ℕ
byte_at [] n = none
byte_at (b ∷ bs) zero = some b
byte_at (b ∷ bs) (suc n) = byte_at bs n

abbrev pub range : Bytes → ℕ → ℕ → Option Bytes
range prefix from to =
    if leb to (length prefix) then some (take (to - from) (drop from prefix)) else none

unfoldable pub is_zip : Bytes → Bool
unfolding starts_with
is_zip prefix =
    starts_with prefix (0x50 ∷ 0x4b ∷ 3 ∷ 4 ∷ []) || starts_with prefix (0x50 ∷ 0x4b ∷ 5 ∷ 6 ∷ [])

abbrev pub isobmff_first_boxes : List Bytes
isobmff_first_boxes =
    map codes ("ftyp" ∷ "styp" ∷ "sidx" ∷ "moov" ∷ "moof" ∷ "free" ∷ "skip" ∷ "wide" ∷ "mdat" ∷ [])

-- `from_be_bytes`
abbrev pub be_value : ℕ → Bytes → ℕ
be_value acc [] = acc
be_value acc (b ∷ bs) = be_value (acc * 256 + b) bs

abbrev pub box_header : Option Bytes → Bool
unfolding one_of
box_header none = false
box_header (some header) =
    let size = be_value 0 (take 4 header) in
    (size == 0 || size == 1 || leb 8 size) && one_of (drop 4 header) isobmff_first_boxes

unfoldable pub is_isobmff : Bytes → Bool
unfolding one_of
is_isobmff prefix = box_header (range prefix 0 8)

unfoldable pub is_matroska : Bytes → Bool
unfolding starts_with
is_matroska prefix = starts_with prefix (0x1a ∷ 0x45 ∷ 0xdf ∷ 0xa3 ∷ [])

abbrev pub ts_packet_len : ℕ
ts_packet_len = 188

abbrev pub ts_sync : ℕ
ts_sync = 0x47

-- The byte at the second packet's start, or its absence.
abbrev pub second_packet : Bytes → Option ℕ → Bool
second_packet prefix (some second) = second == ts_sync
second_packet prefix none = length prefix == ts_packet_len

abbrev pub first_is : Option ℕ → ℕ → Bool
first_is none b = false
first_is (some a) b = a == b

unfoldable pub is_mpegts : Bytes → Bool
is_mpegts prefix =
    if first_is (byte_at prefix 0) ts_sync
    then second_packet prefix (byte_at prefix ts_packet_len)
    else false

abbrev pub sync_safe : Bytes → Bool
sync_safe [] = true
sync_safe (b ∷ bs) = bit_and b 0x80 == 0 && sync_safe bs

abbrev pub sizes_safe : Option Bytes → Bool
sizes_safe none = false
sizes_safe (some sizes) = sync_safe sizes

abbrev pub stream_info : Option ℕ → Bool
stream_info none = false
stream_info (some flags) = bit_and flags 0x7f == 0

abbrev pub frame_sync : Bytes → Bool
frame_sync (first ∷ second ∷ rest) = first == 0xff && bit_and second 0xe0 == 0xe0
frame_sync _ = false

unfoldable pub is_framed_audio : Bytes → Bool
unfolding starts_with
is_framed_audio prefix =
    if starts_with prefix (codes "ID3")
    then sizes_safe (range prefix 6 10)
    else if starts_with prefix (codes "fLaC")
    then stream_info (byte_at prefix 4)
    else frame_sync prefix

abbrev pub package_name : Bytes
package_name = codes "[Content_Types].xml"

-- The length field of the first member's name, and the name.
abbrev pub named_package : Option Bytes → Option Bytes → Bool
unfolding bytes_eq
named_package (some len_bytes) (some name) =
    get_or len_bytes 0 0 + get_or len_bytes 1 0 * 256 == length package_name
    && bytes_eq name package_name
named_package _ _ = false

unfoldable pub is_ooxml : Bytes → Bool
unfolding starts_with bytes_eq
is_ooxml prefix =
    if starts_with prefix (0x50 ∷ 0x4b ∷ 3 ∷ 4 ∷ [])
    then named_package (range prefix 26 28) (range prefix 30 (30 + length package_name))
    else false

unfoldable pub is_zip_not_ooxml : Bytes → Bool
unfolding is_zip is_ooxml
is_zip_not_ooxml prefix = is_zip prefix && not (is_ooxml prefix)

unfoldable pub is_pdf : Bytes → Bool
unfolding starts_with
is_pdf prefix = starts_with prefix (codes "%PDF-")

abbrev probe : ChunkingProfile → (Bytes → Bool) → Probe
probe profile matches = record { profile = profile; matches = matches }

abbrev pub v2 : List Probe
v2 =
    probe structured_text_v1 is_structured_text_prefix
    ∷ probe ooxml_v1 is_ooxml
    ∷ probe pdf_v1 is_pdf
    ∷ probe zip_v1 is_zip_not_ooxml
    ∷ probe isobmff_v1 is_isobmff
    ∷ probe matroska_v1 is_matroska
    ∷ probe mpegts_v1 is_mpegts
    ∷ probe framed_audio_v1 is_framed_audio
    ∷ []

abbrev pub v1 : List Probe
v1 =
    probe structured_text_v1 is_structured_text_prefix
    ∷ probe zip_v1 is_zip
    ∷ probe isobmff_v1 is_isobmff
    ∷ probe matroska_v1 is_matroska
    ∷ probe mpegts_v1 is_mpegts
    ∷ probe framed_audio_v1 is_framed_audio
    ∷ []
