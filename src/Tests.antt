-- ===== src/Tests.antt =====
-- Runs of the chunkers on small inputs, and the theorems applied to them.
pub mod Probes
pub mod Tar
pub mod Documents
pub mod Packages
pub mod Zeros
pub mod Ebml
pub mod Audio
pub mod Media
pub mod Zip
use async_chunker.Assembler
use async_chunker.Assembler.Laws.{IsChunk, Inv, pending, take_unit_byte-Good}
use async_chunker.Assembler.{BoundaryAssembler, take_unit_byte}
use async_chunker.Boundaries.{boundaries_of, ranges, slice, ranges_slices}
use async_chunker.Chunker.{drive, drive_each}
use async_chunker.Constants.{chunk_max, structured_text_strict_mask, structured_text_relaxed_mask}
use async_chunker.Container
use async_chunker.Container.Rejection.{IsRejected}
use async_chunker.Errors.{malformed_profile_input}
use async_chunker.Gear.Masks.{text_relaxed_stricter}
use async_chunker.Gear.Window.{cuts_window}
use async_chunker.Gear.{Blake3, GearHash, cuts, update_all, reset}
use async_chunker.Gear
use async_chunker.Generic
use async_chunker.Generic.Laws as Generic_laws
use async_chunker.Generic.Stream.{generic_stream, generic_sizes, generic_windows, generic_resync}
use async_chunker.Isobmff.Chunker.{isobmff_stream, isobmff_windows, isobmff_rejection}
use async_chunker.Isobmff.Chunker as Boxes
use async_chunker.Isobmff.Boxes.{into_error}
use async_chunker.Isobmff.Walker.Nesting.{Covered, new-Nests}
use async_chunker.Isobmff.Walker.Runs.{walk, walk_invariant, payload_run, Sound, consume-Sound}
use async_chunker.Isobmff.Walker.Shape.{new-Shape}
use async_chunker.Isobmff.Walker.Stack.{Nested}
use async_chunker.Isobmff.Walker.{Walker, State, payload, consume}
use async_chunker.Isobmff.Walker as Walkers
use async_chunker.Matroska.Chunker.{matroska_windows, matroska_rejection}
use async_chunker.Matroska.Chunker as Elements
use async_chunker.Mpegts
use async_chunker.Mpegts.Laws as Ts_laws
use async_chunker.Mpegts.Stream.{mpegts_stream, mpegts_windows}
use async_chunker.Outcome.Contract.{Sends}
use async_chunker.Prelude.Text.{codes}
use async_chunker.Prelude.{
  ℕ, ◌+◌, ◌*◌, ◌%◌, ◌≤◌, ◌<◌, ◌≡◌, ◌≢◌, ◌↔◌, refl, List, [], ◌∷◌, ◌++◌, map, none, some, true,
  false, Bytes, All, length, flatten, replicate, arith,
}
use async_chunker.Profile.{ChunkingProfile, mpegts_v1, from_id, id, from_id_iff}
use async_chunker.Result.{ok}
use async_chunker.StructuredText
use async_chunker.StructuredText.End.{IsPiece}
use async_chunker.StructuredText.Laws.{IsTextChunk}
use async_chunker.StructuredText.Stream.{text_stream, text_chunks, text_windows, accepts_iff}
use async_chunker.Utf8.Scalars.{IsText}
use async_chunker.Utf8.Scan.{scan, utf8_iff}
use async_chunker.Utf8.{Utf8Scanner, start, at_boundary}

-- An output stream of 0, 1, 2, … for every seed.
abbrev pub counting : Blake3
counting = record { xof = λ seed i. i % 256; xof_byte = λ seed i. omega arith }

-- "Grüße" and a line end, and a scalar cut short.
abbrev greeting : Bytes
greeting = 71 ∷ 114 ∷ 0xc3 ∷ 0xbc ∷ 0xc3 ∷ 0x9f ∷ 101 ∷ 10 ∷ []

abbrev cut_short : Bytes
cut_short = 0xe2 ∷ 0x82 ∷ []

-- A file type box of 12 bytes, and a media data box of 10.
abbrev movie : Bytes
movie =
    (0 ∷ 0 ∷ 0 ∷ 12 ∷ [])
    ++ codes "ftyp"
    ++ codes "isom"
    ++ (0 ∷ 0 ∷ 0 ∷ 10 ∷ [])
    ++ codes "mdat"
    ++ (1 ∷ 2 ∷ [])

-- Two transport packets without an adaptation field.
abbrev packet : Bytes
packet = 0x47 ∷ 0x40 ∷ 0x11 ∷ 0x10 ∷ replicate 184 0xff

abbrev transport : Bytes
transport = packet ++ packet

isobmff_stream_example :
    let o = drive Boxes.push Boxes.finish (Boxes.new counting) movie in
    All IsChunk o.emitted
    × (o.error ≡ none
        → (flatten o.emitted ≡ movie)
          × async_chunker.Container.Laws.Fresh Boxes.format (Boxes.assembler counting) o.state)
    × ((rest : Bytes) × (flatten o.emitted ++ rest ≡ movie))
isobmff_stream_example = isobmff_stream counting movie

accepts_iff_example :
    let o =
      drive StructuredText.push StructuredText.finish (StructuredText.new counting) greeting in
    (o.error ≡ none) ↔ IsText greeting
accepts_iff_example = accepts_iff counting greeting

text_stream_example :
    let o =
      drive StructuredText.push StructuredText.finish (StructuredText.new counting) cut_short in
    All IsPiece o.emitted
    × (o.error ≡ none → (flatten o.emitted ≡ cut_short) × (o.state ≡ StructuredText.new counting))
    × ((rest : Bytes) × (flatten o.emitted ++ rest ≡ cut_short))
text_stream_example = text_stream counting cut_short

text_chunks_example :
    All IsTextChunk (StructuredText.push (StructuredText.new counting) greeting).emitted
text_chunks_example = text_chunks counting greeting

utf8_iff_example :
    ((t : Utf8Scanner) × (scan start cut_short ≡ ok t) × (at_boundary t ≡ true)) ↔ IsText cut_short
utf8_iff_example = utf8_iff cut_short

generic_stream_example :
    let o = drive Generic.push Generic.finish (Generic.new counting) greeting in
    (o.error ≡ none)
    × (flatten o.emitted ≡ greeting)
    × All Generic_laws.IsChunk o.emitted
    × (o.state ≡ Generic.new counting)
generic_stream_example = generic_stream counting greeting

generic_sizes_example :
    let o = Generic.push (Generic.new counting) greeting in
    All Generic_laws.WithinEnvelope o.emitted
    × All Generic_laws.IsTail (Generic.finish o.state).emitted
    × (flatten (Generic.finish o.state).emitted ≡ o.state.buffer)
    × (length (Generic.finish o.state).emitted ≤ 1)
generic_sizes_example = generic_sizes counting greeting

mpegts_stream_example :
    let o = drive Mpegts.push Mpegts.finish (Mpegts.new counting) transport in
    All Ts_laws.IsChunk o.emitted
    × (o.error ≡ none → (flatten o.emitted ≡ transport) × (o.state ≡ Mpegts.new counting))
    × ((rest : Bytes) × (flatten o.emitted ++ rest ≡ transport))
mpegts_stream_example = mpegts_stream counting transport

abbrev zero_hash : GearHash
zero_hash = record { table = λ b. b * 37; hash = 0 }

cuts_window_example :
    cuts (update_all zero_hash (greeting ++ replicate 64 32)) structured_text_strict_mask
    ≡ cuts (update_all (reset zero_hash) (movie ++ replicate 64 32)) structured_text_strict_mask
cuts_window_example =
    cuts_window zero_hash greeting movie (replicate 64 32) structured_text_strict_mask (omega arith)

-- The walker within the payload of the first box of `movie`.
abbrev run : Walker → Bytes → Walker
run w [] = w
run w (b ∷ bs) = run (consume w b).0 bs

run-Sound : (w : Walker) (bs : Bytes) → Sound w → Sound (run w bs)
run-Sound w [] s = s
run-Sound w (b ∷ bs) s = run-Sound (consume w b).0 bs (consume-Sound w b s)

-- The header of the first box, and the walker that has read it.
abbrev first_header : Bytes
first_header = (0 ∷ 0 ∷ 0 ∷ 12 ∷ []) ++ codes "ftyp"

abbrev inside : Walker
inside = run Walkers.new first_header

walks_header : walk Walkers.new first_header ≡ ok inside
unfolding walk consume Walkers.new
walks_header = refl

walk_invariant_example :
    ((len : ℕ) → inside.state ≡ State.header len → len < Walkers.header_max)
    × (length inside.open_boxes ≤ Walkers.max_depth)
    × (inside.state ≢ payload 0)
    × Nested inside.open_boxes
    × Covered inside.state inside.open_boxes
walk_invariant_example = walk_invariant first_header inside walks_header

in_payload : inside.state ≡ payload 4
unfolding consume Walkers.new
in_payload = refl

-- A box that no file begins with.
abbrev garbage : Bytes
garbage = (0 ∷ 0 ∷ 0 ∷ 12 ∷ []) ++ codes "GIF8"

rejects_garbage :
    (drive Boxes.push Boxes.finish (Boxes.new counting) garbage).error
    ≡ some (malformed_profile_input "isobmff-v1" 8 "stream does not begin with an ISO BMFF box")
unfolding drive Container.new Container.push Container.finish consume Walkers.new into_error
rejects_garbage = refl

ends_greeting :
    boundaries_of Generic.push Generic.finish (Generic.new counting) greeting ≡ ok (8 ∷ [])
unfolding boundaries_of Generic.new Generic.push Generic.finish
ends_greeting = refl

ranges_slices_example :
    map (slice greeting) (ranges (8 ∷ []))
    ≡ (drive Generic.push Generic.finish (Generic.new counting) greeting).emitted
ranges_slices_example =
    ranges_slices (Generic.new counting) Generic.push Generic.finish Generic_laws.IsChunk
      (λ c. c.buffer) (Generic_laws.Inv counting) (λ c. c ≡ Generic.new counting)
      (Generic_laws.laws counting) greeting (8 ∷ []) ends_greeting

abbrev assembler : BoundaryAssembler
assembler = Assembler.new counting "test"

new_assembler : Inv assembler assembler
unfolding Assembler.new
new_assembler = record { held_fits = omega arith; room = omega arith; parameters = refl }

take_unit_byte-Good_example :
    Sends IsChunk pending
      (Inv assembler)
      assembler
      (71 ∷ [])
      (take_unit_byte true (some 8) assembler 71)
take_unit_byte-Good_example = take_unit_byte-Good true (some 8) assembler 71 new_assembler
