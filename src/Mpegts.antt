-- ===== src/Mpegts.antt =====
-- src/chunker/mpegts: transport packets and the `mpegts-v1` chunker.
pub mod Packet
pub mod Laws
pub mod End
pub mod Stream
use async_chunker.Constants.{
  chunk_min, chunk_target, chunk_max, mpegts_strict_mask, mpegts_relaxed_mask,
}
use async_chunker.Errors.{ChunkError, profile_stream_rejected}
use async_chunker.Gear
use async_chunker.Gear.{Blake3, GearHash, update_all, cuts, reset}
use async_chunker.Mpegts.Packet.{
  TsFault, partial_packet, empty, into_error, packet_len, PacketSeam, is_candidate, inspect,
}
use async_chunker.Outcome.{Emission, Outcome, quiet, emits, fails, succeed, feed}
use async_chunker.Prelude.{
  ℕ, ◌+◌, ◌*◌, ◌/◌, Bool, true, false, not, ◌&&◌, ◌||◌, List, [], ◌∷◌, ◌++◌, none, some, ltb, leb,
  ◌==◌, if◌then◌else◌, Bytes, length, is_empty,
}
use async_chunker.Profile.{mpegts_v1, name}
use async_chunker.Result.{Result, ok, err}

-- Whole packets per chunk.
abbrev pub max_packets : ℕ
max_packets = chunk_max / packet_len

pub record MpegtsChunker : Type 0 where
  pub hash : GearHash
  pub strict_mask : ℕ
  pub relaxed_mask : ℕ
  pub packet : Bytes
  pub buffer : Bytes
  pub offset : ℕ
  pub rejected : Bool
  pub seen_packet : Bool

unfoldable pub new : Blake3 → MpegtsChunker
unfolding Gear.new
new blake3 = record {
  hash = Gear.new blake3 "legra/mpegts-v1/gear";
  strict_mask = mpegts_strict_mask;
  relaxed_mask = mpegts_relaxed_mask;
  packet = [];
  buffer = [];
  offset = 0;
  rejected = false;
  seen_packet = false;
}

pub rejects : MpegtsChunker → TsFault → Outcome MpegtsChunker
unfolding into_error
rejects c fault =
    fails (record c { rejected = true; packet = []; buffer = [] }) (into_error fault c.offset)

cut_before_candidate : MpegtsChunker → Bool
unfolding cuts
cut_before_candidate c =
    let len = length c.buffer in
    if ltb len chunk_min
    then false
    else cuts c.hash (if ltb len chunk_target then c.strict_mask else c.relaxed_mask)

-- The condition of `place_packet` for emitting the buffer first.
pub cuts_first : MpegtsChunker → Bool → Bool
unfolding cut_before_candidate
cuts_first c candidate =
    not (is_empty c.buffer)
    && ((candidate && cut_before_candidate c) || leb (max_packets * packet_len) (length c.buffer))

-- `emit_buffer`
abbrev pub emptied : MpegtsChunker → MpegtsChunker
emptied c = record c { buffer = []; hash = reset c.hash }

abbrev pub appended : MpegtsChunker → MpegtsChunker
appended c = record c {
  hash = update_all c.hash c.packet;
  buffer = c.buffer ++ c.packet;
  packet = [];
}

pub place_packet : MpegtsChunker → Bool → Outcome MpegtsChunker
unfolding cuts_first
place_packet c candidate =
    if cuts_first c candidate
    then emits (appended (emptied c)) (c.buffer ∷ [])
    else succeed (appended c)

-- A complete packet, inspected.
pub place_inspected : MpegtsChunker → Result TsFault PacketSeam → Outcome MpegtsChunker
unfolding place_packet rejects is_candidate
place_inspected c (ok seam) = place_packet (record c { seen_packet = true }) (is_candidate seam)
place_inspected c (err fault) = rejects c fault

abbrev pub collects : MpegtsChunker → ℕ → MpegtsChunker
collects c byte = record c { packet = c.packet ++ byte ∷ []; offset = c.offset + 1 }

-- The body of the loop in `push`.
pub push_byte : MpegtsChunker → ℕ → Outcome MpegtsChunker
unfolding place_inspected inspect
push_byte c byte =
    let next = collects c byte in
    if length next.packet == packet_len
    then place_inspected next (inspect next.packet)
    else succeed next

abbrev guarded : MpegtsChunker → Outcome MpegtsChunker → Outcome MpegtsChunker
guarded c o = if c.rejected then fails c (profile_stream_rejected (name mpegts_v1)) else o

unfoldable pub push : MpegtsChunker → Bytes → Outcome MpegtsChunker
unfolding push_byte feed
push c window = guarded c (feed push_byte c window)

-- `offset = 0; seen_packet = false`
abbrev pub rewound : MpegtsChunker → MpegtsChunker
rewound c = record c { offset = 0; seen_packet = false }

end_stream : MpegtsChunker → Outcome MpegtsChunker
unfolding rejects
end_stream c =
    if not (is_empty c.packet)
    then rejects c partial_packet
    else if not c.seen_packet
    then rejects c empty
    else if not (is_empty c.buffer)
    then emits (rewound (emptied c)) (c.buffer ∷ [])
    else succeed (rewound c)

unfoldable pub finish : MpegtsChunker → Outcome MpegtsChunker
unfolding end_stream
finish c = guarded c (end_stream c)
