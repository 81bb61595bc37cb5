-- ===== src/Mpegts/Packet.antt =====
-- src/chunker/mpegts/packet.rs and fault.rs: the framing checks on one packet.
use async_chunker.Errors.{ChunkError, malformed_profile_input}
use async_chunker.Prelude.{
  ℕ, ◌-◌, ◌/◌, Bool, false, not, ◌||◌, String, bit_and, ltb, ◌==◌, if◌then◌else◌, Bytes, get_or,
}
use async_chunker.Profile.{mpegts_v1, name}
use async_chunker.Result.{Result, ok, err}

abbrev pub packet_len : ℕ
packet_len = 188

abbrev pub sync : ℕ
sync = 0x47

pub data TsFault : Type 0 where
  bad_sync reserved_adaptation_control malformed_adaptation_field : TsFault
  partial_packet empty : TsFault

detail : TsFault → String
detail bad_sync = "packet does not begin with the 0x47 sync byte"
detail reserved_adaptation_control = "reserved adaptation-field control"
detail malformed_adaptation_field = "adaptation field overruns its packet"
detail partial_packet = "stream ends inside a packet"
detail empty = "stream holds no packets"

unfoldable pub into_error : TsFault → ℕ → ChunkError
unfolding detail name
into_error fault offset = malformed_profile_input (name mpegts_v1) offset (detail fault)

pub record PacketSeam : Type 0 where
  pub unit_start : Bool
  pub discontinuity : Bool

unfoldable pub is_candidate : PacketSeam → Bool
is_candidate s = s.unit_start || s.discontinuity

abbrev at : Bytes → ℕ → ℕ
at packet i = get_or packet i 0

-- An adaptation field is present; the flag says that payload follows it.
adaptation_field : Bytes → Bool → Bool → Result TsFault PacketSeam
adaptation_field packet unit_start has_payload =
    let field_length = at packet 4 in
    let budget = if has_payload then packet_len - 4 - 1 - 1 else packet_len - 4 - 1 in
    if ltb budget field_length
    then err malformed_adaptation_field
    else ok (record {
      unit_start = unit_start;
      discontinuity = if ltb 0 field_length then not (bit_and (at packet 5) 0x80 == 0) else false;
    })

unfoldable pub inspect : Bytes → Result TsFault PacketSeam
unfolding adaptation_field
inspect packet =
    let unit_start = not (bit_and (at packet 1) 0x40 == 0) in
    let control = bit_and (at packet 3 / 16) 3 in
    if not (at packet 0 == sync)
    then err bad_sync
    else if control == 0
    then err reserved_adaptation_control
    else if control == 1
    then ok (record { unit_start = unit_start; discontinuity = false })
    else adaptation_field packet unit_start (control == 3)
