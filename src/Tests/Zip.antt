-- ===== src/Tests/Zip.antt =====
-- Runs of the archive chunker.
use async_chunker.Zip.Extra.{find}
use async_chunker.Chunker.{drive}
use async_chunker.Container
use async_chunker.Errors.{malformed_profile_input}
use async_chunker.Zip.Chunker.{zip_windows, zip_rejection}
use async_chunker.Zip.Chunker as Archives
use async_chunker.Prelude.{
  ◌≡◌, refl, [], ◌∷◌, ◌++◌, none, some, Bytes, replicate, List, length, arith, Bool, true, false,
}
use async_chunker.Zip.Fault.{into_error}
use async_chunker.Zip.Walker as Records
use async_chunker.Zip.Walker.Members.{trace, archive_members}
use async_chunker.Zip.Walker.Tally.{headers, ends}
use async_chunker.Zip.Walker.Ranges.{Within}
use async_chunker.Zip.Walker.Runs.{walker_in_range}
use async_chunker.Zip.State.{Walker, Event, ScanState, data_scan, fixed_max}
use async_chunker.Zip.Numbers.{W}
use async_chunker.Zip.Descriptor.{scan}
use async_chunker.Zip.Descriptor.Scan.{Scans, scan_loses_nothing}
use async_chunker.Zip.Extra.Areas.{area, find-area, Field}
use async_chunker.Result.{ok, err, Ensures}
use async_chunker.Tests.{counting}

-- An archive of one stored member "a" of one byte, and its first half.
abbrev local_part : Bytes
local_part =
    0x50 ∷ 0x4b ∷ 3 ∷ 4 ∷ 20 ∷ 0 ∷ replicate 12 0
    ++ 1 ∷ 0 ∷ 0 ∷ 0 ∷ 1 ∷ 0 ∷ 0 ∷ 0 ∷ 1 ∷ 0 ∷ 0 ∷ 0 ∷ 0x61 ∷ 0x78 ∷ []

abbrev archive : Bytes
archive =
    local_part
    ++ (0x50 ∷ 0x4b ∷ 1 ∷ 2 ∷ 20 ∷ 0 ∷ 20 ∷ 0 ∷ replicate 12 0
        ++ 1 ∷ 0 ∷ 0 ∷ 0 ∷ 1 ∷ 0 ∷ 0 ∷ 0 ∷ 1 ∷ 0 ∷ replicate 16 0
        ++ 0x61 ∷ [])
    ++ (0x50 ∷ 0x4b ∷ 5 ∷ 6 ∷ 0 ∷ 0 ∷ 0 ∷ 0 ∷ 1 ∷ 0 ∷ 1 ∷ 0 ∷ 47 ∷ 0 ∷ 0 ∷ 0 ∷ 32 ∷ 0 ∷ 0 ∷ 0 ∷ 0
        ∷ 0 ∷ [])

accepts_archive : (drive Archives.push Archives.finish (Archives.new counting) archive).error ≡ none
unfolding drive Container.new Container.push Container.finish Records.consume_untapped Records.new
    Records.finish
accepts_archive = refl

rejects_local_part :
    (drive Archives.push Archives.finish (Archives.new counting) local_part).error
    ≡ some (
        malformed_profile_input "zip-v1" 32 "archive ends inside a record or before its end record")
unfolding drive Container.new Container.push Container.finish Records.consume_untapped Records.new
    Records.finish into_error
rejects_local_part = refl

-- The value of a result, where there is one.
abbrev unwrapped : W (Walker × List Event) → Walker × List Event
unwrapped (ok r) = r
unwrapped (err fault) = (Records.new, [])

abbrev is_ok : W (Walker × List Event) → Bool
is_ok (ok r) = true
is_ok (err fault) = false

unwrapped_lem : (r : W (Walker × List Event)) → is_ok r ≡ true → r ≡ ok (unwrapped r)
unwrapped_lem (ok r) h = refl
unwrapped_lem (err fault) h = ground arith

abbrev traced : Walker × List Event
traced = unwrapped (trace Records.new archive)

runs_through : is_ok (trace Records.new archive) ≡ true
unfolding trace Records.new
runs_through = refl

traces : trace Records.new archive ≡ ok traced
traces = unwrapped_lem (trace Records.new archive) runs_through

completes : Records.finish traced.0 ≡ ok tt
unfolding Records.finish trace Records.new
completes = refl

archive_members_example :
    (headers 0 (traced.1) ≡ (traced.0).central_count)
    × (ends 0 (traced.1) ≡ (traced.0).central_count)
    × ((traced.0).local_count ≡ (traced.0).central_count)
archive_members_example = archive_members archive (traced.0) (traced.1) traces completes

walker_in_range_example :
    (length (traced.0).fixed ≡ fixed_max) × Within (traced.0).state (length (traced.0).variable)
walker_in_range_example = walker_in_range archive (traced.0) (traced.1) traces

-- A member of unknown size, with "PK" pending.
abbrev scanning : ScanState
scanning = record { consumed = 0; method = 0; zip64 = false; pending = 2 }

abbrev pausing : Walker
unfolding Records.new
pausing = record Records.new { fixed = 0x50 ∷ 0x4b ∷ replicate 50 0; state = data_scan scanning }

scan_loses_nothing_example :
    Ensures (Scans (0x50 ∷ 0x4b ∷ 0x61 ∷ []) scanning) (scan pausing scanning 0x61)
unfolding Records.new
scan_loses_nothing_example = scan_loses_nothing pausing scanning 0x61 refl (omega arith)

-- An area with a field of another id in front of the ZIP64 one.
abbrev two_fields : List Field
two_fields =
    record { id = 0x5455; content = 1 ∷ 2 ∷ [] } ∷ record { id = 1; content = replicate 8 7 } ∷ []

find-area_example : find (area two_fields) ≡ ok (some (replicate 8 7))
find-area_example = find-area two_fields (
  record { id = omega arith; size = omega arith },
  (record { id = omega arith; size = omega arith }, tt),
)
