-- ===== src/Lib.antt =====
-- async-chunker: content-defined chunking of byte streams by the structure of their format.
--
-- A caller opens the chunker of a profile, feeds it windows of bytes with `push` and ends the stream
-- with `finish`; each call passes the chunks that it completes to a callback `emit`. A chunker rolls a
-- gear hash over the bytes and cuts where the format allows it and the hash agrees, within one size
-- envelope. The container formats have a walker that reads the structure byte by byte, and an assembler
-- that places the cuts at the units that the walker finds.
--
-- The parts and their files (paths from the repository's root):
--   Constants, Errors, Profile   src/constants.rs, src/error.rs, src/profile.rs.
--   Gear                         src/chunker/gear.rs: `GearHash`. Gear.Window and Gear.Masks hold its proofs.
--   Outcome                      what a method that takes `&mut self` and `emit` leaves: the new state, the
--                                chunks emitted in order, and the error. Outcome.Contract is the contract
--                                of such methods, and Outcome.Feed the loop over a window.
--   Chunker                      src/chunker/profile_chunker.rs: the trait `Chunker`, as laws that the
--                                implementations fill, and in Chunker.Whole what follows from them.
--                                Chunker.Guarded is the guard against rejected streams, written once.
--   Boundaries                   src/chunker/boundaries.rs: `ChunkBoundaries`.
--   Generic                      src/chunker/generic.rs.
--   Assembler                    src/chunker/assembler.rs: `BoundaryAssembler`.
--   Container                    the chunker around a walker, with one text in the chunker.rs of isobmff, matroska
--                                and zip, and nearly one in ber.rs of office and in that of pdf: when a byte begins a
--                                unit, and what `finish` makes of the assembler, are fields of the record `Format`, as the
--                                walker is. Container.Accepting compares the chunker with its walker alone.
--   Isobmff                      src/chunker/isobmff: Boxes is boxes.rs and fault.rs, Walker is walker.rs,
--                                Chunker fills `Format`.
--   Matroska                     src/chunker/matroska: Varint is varint.rs, Elements is elements.rs and
--                                fault.rs, Walker is walker.rs, Chunker fills `Format`.
--   Zip                          src/chunker/zip: Fault is fault.rs, Numbers, Extra and Headers are records.rs,
--                                State is walker/state.rs and events.rs, Descriptor, Dispatch and Walker are
--                                the files of walker, Chunker fills `Format`. A `ZipEvents` is the list of the
--                                calls it receives; those of a step that fails are left out.
--   Pdf                          src/chunker/pdf: Fault is fault.rs, Object is object.rs (Integers holds the proof about
--                                `parse_int`), Walker is walker.rs, Chunker fills `Format`. The scanner's token and
--                                the walker's lines are lists of the bytes written so far.
--   Office                       src/chunker/office: Kind is kind.rs, Fault is fault.rs, Package is `PackageCheck` and
--                                `BerEvents` of ber.rs, Ber fills `Format` with the archive walker and the check.
--   Probe                        src/probe: Set is set.rs, Text is text.rs, Probes is probes.rs, Detection is
--                                detector.rs and detection.rs. Tables checks every combination of answers of the
--                                probes by evaluation. `std::str::from_utf8` is the scanner of Utf8.
--   Decompose                    src/decompose: Fault and Sink are the types of fault.rs and sink.rs that the
--                                walker uses; Tar is tar.rs, in Fields (the fields of a header block), Pax
--                                (overrides and extended headers) and Walker. The loop over the records of an
--                                extended header has as much fuel as they have bytes: each takes one at least.
--   MediaType                    src/media_type: MediaType and Display are mod.rs, Cursor and Parse are parse.rs;
--                                Normal is the normal form that parsing aims at. A text is its UTF-8 bytes. The
--                                loop over the parameters has one unit of fuel more than the text has bytes.
--   Mpegts                       src/chunker/mpegts: Packet is packet.rs and fault.rs.
--   FramedAudio                  src/chunker/framed_audio: Headers is fault.rs, id3.rs, adts.rs and flac.rs,
--                                Mp3 is mp3.rs, Walker is walker.rs; Room holds how much a chunk may hold in
--                                each of the walker's states.
--   Registry                     src/registry/table.rs: the tables of both versions, and the lookup.
--   Utf8, StructuredText         src/chunker/structured_text: utf8.rs and chunker.rs. Utf8.Scalars is the
--                                reference encoding that the scanner is compared with.
--   Tests                        runs on small inputs, and the theorems at concrete values.
--
-- How the code is rendered. A byte is a natural number, bounded where that matters. A method returns its
-- new state; `emit` is the list of chunks it receives. An early return by `?` or inside a loop stops the
-- rest. The gear hash wraps at 2 ^ 64, written out; the gear table is the function of its index, and the
-- output of BLAKE3, another crate, is a parameter of which only the range of a byte is assumed. Stream
-- offsets are `u64` counters in the source and unbounded here. The stack of open boxes has the innermost
-- box first. A walker step that fails keeps no change but the offset, since the stream is rejected at once
-- and only the offset is read. `next_power_of_two` doubles at most 64 times, which reaches every 64-bit
-- power. The search of a ZIP extra area has as much fuel as the area has bytes, and each round
-- consumes four. Capacities of buffers are not modelled.
--
-- Not modelled: the canonicalizing office chunker, and of decomposition gzip, the ZIP adapter and the tree of
-- members, which are later work; the
-- asynchronous streams, which forward windows to a chunker; and the inflater, of another crate. `finish`
-- leaves the seam of the last byte in the assembler, which the next byte overwrites before it is read; a
-- fresh state is therefore fresh up to that field.
pub mod Assembler
pub mod Boundaries
pub mod Chunker
pub mod Constants
pub mod Container
pub mod Decompose
pub mod Errors
pub mod FramedAudio
pub mod Gear
pub mod Generic
pub mod Isobmff
pub mod Matroska
pub mod MediaType
pub mod Mpegts
pub mod Office
pub mod Outcome
pub mod Pdf
pub mod Prelude
pub mod Probe
pub mod Profile
pub mod Registry
pub mod Result
pub mod StructuredText
pub mod Tests
pub mod Utf8
pub mod Zip
