-- ===== src/Tests/Tar.antt =====
-- Runs of the walker over TAR archives.
use async_chunker.Decompose.Tar.Fields.{
  parse_octal, octal, octal_step, sum_from, c_string, checksum_matches,
}
use async_chunker.Decompose.Tar.Pax.Records.{IsRecord, written, set_keys}
use async_chunker.Decompose.Tar.Pax.{position, no_overrides}
use async_chunker.Decompose.Tar.Walker.Extended.{extended_header}
use async_chunker.Decompose.Tar.Walker.Members.{pushes}
use async_chunker.Decompose.Tar.Walker.Room.{InRoom}
use async_chunker.Decompose.Tar.Walker.Rooms.{buffers_hold}
use async_chunker.Decompose.Tar.Walker.{
  new, TarWalker, header, payload, entry, regular, pax_next, apply_override, close_header,
  header_path, kind_of, build_entry, enter, by_type, real_header,
}
use async_chunker.Prelude.Text.{codes, bytes_eq}
use async_chunker.Prelude.Words.{parse_u64, digits_from}
use async_chunker.Prelude.{◌≡◌, refl, true, none, List, [], ◌∷◌, ◌++◌, Bytes, All, replicate}
use async_chunker.Result.{ok, Ensures}

-- The header of a member `a` of three bytes.
abbrev member_header : Bytes
member_header =
    (b'a' ∷ replicate 123 0)
    ++ (codes "00000000003"
        ++ (replicate 13 0 ++ (codes "001644" ++ (0 ∷ b' ' ∷ b'0' ∷ replicate 355 0))))

header_is_read :
    close_header new member_header
    ≡ ok (
      record new { state = payload 3 509; saw_entry = true },
      entry (record { path = codes "a"; kind = regular; size = 3; mode = none; mtime = none }),
    )
unfolding close_header real_header by_type enter build_entry header_path kind_of c_string bytes_eq
    checksum_matches parse_octal octal octal_step sum_from new
header_is_read = refl

abbrev three : Bytes
three = 1 ∷ 0 ∷ 255 ∷ []

abbrev fresh : TarWalker
fresh = record {
  state = header;
  block = [];
  overrides = no_overrides;
  offset = 2048;
  saw_entry = true;
}

abbrev end_marker : Bytes
end_marker = replicate 1024 0

buffers_hold_example : Ensures (λ r. InRoom r.0) (pushes new end_marker)
buffers_hold_example = buffers_hold end_marker

abbrev renamed : List (Bytes × Bytes × Bytes)
renamed = (codes "12", codes "path", codes "a/b") ∷ (codes "10", codes "size", codes "5") ∷ []

renamed-Records : All IsRecord renamed
unfolding position parse_u64 digits_from
renamed-Records = ((refl, refl, refl), ((refl, refl, refl), tt))

extended_header_example :
    apply_override (record no_overrides { buffer = written renamed }) 1024 pax_next
    ≡ set_keys (record no_overrides { buffer = [] }) 1024 renamed
extended_header_example = extended_header no_overrides 1024 renamed renamed-Records
