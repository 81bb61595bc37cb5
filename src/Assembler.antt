-- ===== src/Assembler.antt =====
-- src/chunker/assembler.rs: the chunk assembly shared by the container profiles.
pub mod Laws
use async_chunker.Constants.{
  chunk_min, chunk_target, chunk_max, structured_text_strict_mask, structured_text_relaxed_mask,
}
use async_chunker.Gear.{
  Blake3, GearHash, update, update_all, cuts, reset, generic_strict_mask, generic_relaxed_mask,
}
use async_chunker.Gear
use async_chunker.Outcome.{Emission, quiet, seq}
use async_chunker.Prelude.{
  Option, none, some, ℕ, ◌+◌, ◌-◌, Bool, true, false, not, ◌&&◌, ◌||◌, String, List, [], ◌∷◌, ◌++◌,
  ltb, leb, ◌==◌, if◌then◌else◌, Bytes, length, take, drop, is_empty,
}

pub data Seam : Type 0 where
  no_seam strict soft : Seam

pub data CutGate : Type 0 where
  per_byte text_seam : CutGate

pub record BoundaryAssembler : Type 0 where
  pub hash : GearHash
  pub strict_mask : ℕ
  pub relaxed_mask : ℕ
  pub gate : CutGate
  pub seam : Seam
  pub unit_min : ℕ
  pub buffer : Bytes
  pub held : Bytes

unfoldable pub with_unit_min : Blake3 → String → ℕ → BoundaryAssembler
unfolding Gear.new generic_strict_mask generic_relaxed_mask
with_unit_min blake3 seed unit_min = record {
  hash = Gear.new blake3 seed;
  strict_mask = generic_strict_mask;
  relaxed_mask = generic_relaxed_mask;
  gate = per_byte;
  seam = no_seam;
  unit_min = unit_min;
  buffer = [];
  held = [];
}

unfoldable pub new : Blake3 → String → BoundaryAssembler
unfolding with_unit_min
new blake3 seed = with_unit_min blake3 seed chunk_min

unfoldable pub set_gate : BoundaryAssembler → CutGate → BoundaryAssembler
set_gate a gate = record a { gate = gate }

-- `if !held.is_empty() { emit(&held) }`
abbrev sent : Bytes → List Bytes
sent chunk = if is_empty chunk then [] else chunk ∷ []

pub close_chunk : BoundaryAssembler → Emission BoundaryAssembler
close_chunk a = record {
  state = record a { held = a.buffer; buffer = []; hash = reset a.hash };
  emitted = sent a.held;
}

-- `held.extend_from_slice(&buffer); buffer.clear()`
abbrev attach : BoundaryAssembler → BoundaryAssembler
attach a = record a { held = a.held ++ a.buffer; buffer = [] }

-- Something is held, and the buffer still fits behind it.
abbrev fits_held : BoundaryAssembler → Bool
fits_held a = not (is_empty a.held) && leb (length a.held + length a.buffer) chunk_max

unfoldable pub boundary : BoundaryAssembler → Emission BoundaryAssembler
unfolding close_chunk
boundary a =
    if leb a.unit_min (length a.buffer)
    then close_chunk a
    else if not (is_empty a.held)
        && not (is_empty a.buffer)
        && leb (length a.held + length a.buffer) chunk_max
    then quiet (record (attach a) { hash = reset a.hash })
    else quiet a

-- The header begins the new buffer, and the hash is that of the header.
abbrev begin_with : Bytes → BoundaryAssembler → BoundaryAssembler
begin_with header a = record a {
  hash = update_all (reset a.hash) header;
  buffer = a.buffer ++ header;
}

-- The state after `buffer.split_off(buffer.len() - header_len)`.
abbrev split : BoundaryAssembler → ℕ → BoundaryAssembler
split a header_len = record a { buffer = take (length a.buffer - header_len) a.buffer }

realign : Bytes → BoundaryAssembler → Emission BoundaryAssembler
unfolding close_chunk
realign header a =
    if fits_held a
    then quiet (begin_with header (attach a))
    else let closed = close_chunk a in record closed { state = begin_with header closed.state }

unfoldable pub large_unit_starts : BoundaryAssembler → ℕ → Emission BoundaryAssembler
unfolding realign
large_unit_starts a header_len =
    if leb (length a.buffer) header_len
    then quiet a
    else realign (drop (length a.buffer - header_len) a.buffer) (split a header_len)

unfoldable pub seam_of : ℕ → Seam
seam_of byte =
    if byte == b'\n' || byte == b'>'
    then strict
    else if byte == b'\t'
        || byte == b'\r'
        || byte == b' '
        || byte == b','
        || byte == b';'
        || byte == b'.'
        || byte == b'}'
        || byte == b']'
        || byte == b')'
        || byte == b'"'
    then soft
    else no_seam

-- The cut rule for a text region; the flag is `before_target`.
text_cut : Seam → Bool → GearHash → Bool
text_cut no_seam before_target g = false
text_cut soft true g = false
text_cut strict true g = cuts g structured_text_strict_mask
text_cut soft false g = cuts g structured_text_relaxed_mask
text_cut strict false g = cuts g structured_text_relaxed_mask

gate_cut : CutGate → BoundaryAssembler → Bool → Bool
unfolding text_cut cuts
gate_cut per_byte a before_target =
    cuts a.hash (if before_target then a.strict_mask else a.relaxed_mask)
gate_cut text_seam a before_target = text_cut a.seam before_target a.hash

unfoldable pub cut_here : BoundaryAssembler → Bool
unfolding gate_cut
cut_here a =
    let len = length a.buffer in
    if ltb len chunk_min
    then false
    else if leb chunk_max len
    then true
    else gate_cut a.gate a (ltb len chunk_target)

abbrev pub taken : BoundaryAssembler → ℕ → BoundaryAssembler
taken a byte = record a {
  buffer = a.buffer ++ byte ∷ [];
  hash = update a.hash byte;
  seam = seam_of byte;
}

unfoldable pub push : BoundaryAssembler → ℕ → Emission BoundaryAssembler
unfolding cut_here close_chunk update seam_of
push a byte = let next = taken a byte in if cut_here next then close_chunk next else quiet next

unfoldable pub finish : BoundaryAssembler → Emission BoundaryAssembler
finish a = record {
  state = record a { held = []; buffer = []; hash = reset a.hash };
  emitted = sent a.held ++ sent a.buffer;
}

unfoldable pub clear : BoundaryAssembler → BoundaryAssembler
clear a = record a { buffer = []; held = []; hash = reset a.hash }

aligned : Option ℕ → BoundaryAssembler → Emission BoundaryAssembler
unfolding large_unit_starts
aligned none a = quiet a
aligned (some header_len) a = large_unit_starts a header_len

-- The calls that a container chunker makes around an accepted byte: a boundary before it where a unit
-- begins, and a realignment after it where it completes the header of a large unit.
unfoldable pub take_unit_byte : Bool → Option ℕ → BoundaryAssembler → ℕ → Emission BoundaryAssembler
unfolding seq boundary push aligned
take_unit_byte begins large a byte =
    seq (if begins then boundary a else quiet a) (λ b. seq (push b byte) (λ c. aligned large c))
