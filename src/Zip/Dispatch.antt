-- ===== src/Zip/Dispatch.antt =====
-- src/chunker/zip/walker/dispatch.rs: signatures, fixed parts, variable parts, and the end records.
use async_chunker.Constants.{chunk_min}
use async_chunker.Prelude.Text.{bytes_eq}
use async_chunker.Prelude.{
  ℕ, ◌+◌, ◌-◌, not, ◌||◌, ◌&&◌, Option, none, some, List, [], ◌∷◌, leb, ◌==◌, if◌then◌else◌, Bytes,
  take, drop, length,
}
use async_chunker.Result.{ok, err, ◌>>=◌, ok_or}
use async_chunker.Zip.Fault.{
  unknown_signature, member_after_central_directory, record_out_of_sequence,
  central_offset_out_of_range, entry_count_mismatch, central_directory_geometry,
}
use async_chunker.Zip.Headers.{
  central_header, end_of_central_directory, zip64_end_of_central_directory, zip64_locator,
  LocalHeader, parse_local, needs_zip64, sizes, CentralHeader, parse_central, resolve, EndRecord,
  parse_end, Zip64EndRecord, parse_zip64_end,
}
use async_chunker.Zip.Headers as Headers
use async_chunker.Zip.Numbers.{W, MemberSizes, check, zip64_marker_16, zip64_marker_32}
use async_chunker.Zip.State.{
  Walker, Step, Event, central_begun, local_header, Phase, members, central, zip64_end_seen,
  locator_seen, complete, Record, local_record, central_record, end_record, zip64_end_record,
  zip64_locator_record, Variable, local_variable, central_variable, State, signature, member_bytes,
  data_scan, skip, fixed_len, to,
}
use async_chunker.Zip.State as State

-- The record that a signature begins.
unfoldable pub kind_of : Bytes → W Record
unfolding bytes_eq
kind_of sig =
    if bytes_eq sig Headers.local_header
    then ok local_record
    else if bytes_eq sig central_header
    then ok central_record
    else if bytes_eq sig end_of_central_directory
    then ok end_record
    else if bytes_eq sig zip64_end_of_central_directory
    then ok zip64_end_record
    else if bytes_eq sig zip64_locator
    then ok zip64_locator_record
    else err unknown_signature

abbrev or_some : Option ℕ → ℕ → Option ℕ
or_some none n = some n
or_some (some m) n = some m

-- `begin_end_sequence`
abbrev pub begin_end_sequence : Walker → ℕ → Walker
begin_end_sequence w record_start = record w {
  central_start = or_some w.central_start record_start;
  central_end = record_start;
}

-- The `match (kind, self.phase)` of `dispatch_signature`; the walker after it, and what it reports.
unfoldable pub enter : Record → Phase → Walker → ℕ → W (Walker × List Event)
enter local_record members w start = ok (w, [])
enter local_record _ w start = err member_after_central_directory
enter central_record members w start =
    ok (record w { phase = central; central_start = some start }, central_begun ∷ [])
enter central_record central w start = ok (w, [])
enter zip64_end_record members w start =
    ok (record (begin_end_sequence w start) { phase = zip64_end_seen }, central_begun ∷ [])
enter zip64_end_record central w start =
    ok (record (begin_end_sequence w start) { phase = zip64_end_seen }, [])
enter zip64_locator_record zip64_end_seen w start = ok (record w { phase = locator_seen }, [])
enter end_record members w start = ok (begin_end_sequence w start, central_begun ∷ [])
enter end_record central w start = ok (begin_end_sequence w start, [])
enter end_record locator_seen w start = ok (w, [])
enter _ _ w start = err record_out_of_sequence

unfoldable pub dispatch_signature : Walker → W Step
unfolding kind_of enter
dispatch_signature w = do
  kind ← kind_of (take 4 w.fixed)
  entered ← enter kind w.phase w (w.offset - 3)
  ok (record {
    walker = record entered.0 { state = State.fixed kind 0 };
    events = entered.1;
    large = none;
  })

-- The state that `skip` sets, with the phase where nothing is left.
abbrev pub skipped : Walker → ℕ → Phase → Walker
skipped w remaining after =
    if remaining == 0
    then record w { phase = after; state = signature 0 }
    else record w { state = skip remaining after }

-- The state of a member whose size is known and not zero, or of one that has ended at its header.
unfoldable pub known : Walker → LocalHeader → MemberSizes → Event → Option ℕ → Step
known w h claims seen large =
    if claims.compressed == 0
    then record {
      walker = record w { state = signature 0 };
      events = seen ∷ State.member_end claims h.crc ∷ [];
      large = large;
    }
    else record {
      walker = record w {
        state = member_bytes (record {
          remaining = claims.compressed;
          total = claims.compressed;
          uncompressed = claims.uncompressed;
          crc = h.crc;
          method = h.method;
          descriptor = if h.has_descriptor then some (record { zip64 = needs_zip64 h }) else none;
        });
      };
      events = seen ∷ [];
      large = large;
    }

-- The arm `Variable::Local` where the size is known.
unfoldable pub dispatch_known : Walker → LocalHeader → Bytes → Bytes → W Step
unfolding known sizes check
dispatch_known w h name extra = do
  claims ← sizes h extra
  let large = if leb chunk_min claims.compressed then some (26 + 4 + length w.variable) else none
  _ ← check claims h.method
  ok (
      known w h claims (local_header name h.method h.utf8_flag h.encrypted (some claims) h.crc)
        large)

-- The offset of a central entry lies in front of the central directory.
unfoldable pub addressed : Walker → ℕ → ℕ → W Step
addressed w start local_offset =
    if leb start local_offset
    then err central_offset_out_of_range
    else to (record w { state = signature 0 })

-- The arm `Variable::Central`.
unfoldable pub dispatch_central : Walker → CentralHeader → W Step
unfolding resolve check addressed
dispatch_central w h = do
  resolved ← resolve h (take h.extra_len (drop h.name_len w.variable))
  _ ← check (resolved.0) h.method
  start ← ok_or w.central_start record_out_of_sequence
  addressed w start (resolved.1)

unfoldable pub dispatch_variable : Walker → Variable → W Step
unfolding dispatch_known dispatch_central
dispatch_variable w (local_variable h) =
    let name = take h.name_len w.variable in
    if h.has_descriptor && h.compressed == 0
    then ok (record {
      walker = record w {
        state =
            data_scan
              (record { consumed = 0; method = h.method; zip64 = needs_zip64 h; pending = 0 });
      };
      events = local_header name h.method h.utf8_flag h.encrypted none 0 ∷ [];
      large = none;
    })
    else dispatch_known w h name (drop h.name_len w.variable)
dispatch_variable w (central_variable h) = dispatch_central w h

unfoldable pub begin_variable : Walker → Variable → ℕ → W Step
unfolding dispatch_variable
begin_variable w kind total =
    let v = record w { variable = []; state = State.variable kind total } in
    if total == 0 then dispatch_variable v kind else to v

-- A field of the end record, or that of the ZIP64 end record where it holds the marker.
abbrev pub widened : ℕ → ℕ → Option ℕ → ℕ
widened marker field none = field
widened marker field (some wide) = if field == marker then wide else field

abbrev pub map_some : (Zip64EndRecord → ℕ) → Option Zip64EndRecord → Option ℕ
map_some field none = none
map_some field (some end) = some (field end)

-- The last test of `reconcile_end`.
unfoldable pub geometry : Walker → ℕ → ℕ → ℕ → W (Unit {0})
geometry w central_size central_offset start =
    if not (central_offset == start) || not (central_size == w.central_end - start)
    then err central_directory_geometry
    else ok tt

unfoldable pub reconcile_end : Walker → EndRecord → W (Unit {0})
unfolding geometry
reconcile_end w end =
    let entries =
      widened zip64_marker_16 end.entries_total (map_some (λ z. z.entries_total) w.zip64_end) in
    let central_size =
      widened zip64_marker_32 end.central_size (map_some (λ z. z.central_size) w.zip64_end) in
    let central_offset =
      widened zip64_marker_32 end.central_offset (map_some (λ z. z.central_offset) w.zip64_end) in
    if not (entries == w.central_count) || not (entries == w.local_count)
    then err entry_count_mismatch
    else ok_or w.central_start record_out_of_sequence >>= geometry w central_size central_offset

unfoldable pub dispatch_fixed : Record → Walker → W Step
unfolding begin_variable parse_local parse_central parse_end parse_zip64_end reconcile_end
dispatch_fixed local_record w =
    let h = parse_local (take (fixed_len local_record) w.fixed) in
    begin_variable (record w { local_count = w.local_count + 1 }) (local_variable h)
      (h.name_len + h.extra_len)
dispatch_fixed central_record w =
    let h = parse_central (take (fixed_len central_record) w.fixed) in
    begin_variable (record w { central_count = w.central_count + 1 }) (central_variable h)
      (h.name_len + h.extra_len + h.comment_len)
dispatch_fixed end_record w = do
  let end = parse_end (take (fixed_len end_record) w.fixed)
  _ ← reconcile_end w end
  to (skipped w end.comment_len complete)
dispatch_fixed zip64_end_record w = do
  end ← parse_zip64_end (take (fixed_len zip64_end_record) w.fixed)
  to (skipped (record w { zip64_end = some end }) end.extensible_len zip64_end_seen)
dispatch_fixed zip64_locator_record w = to (record w { state = signature 0 })
