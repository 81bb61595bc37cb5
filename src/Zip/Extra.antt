-- ===== src/Zip/Extra.antt =====
-- src/chunker/zip/records.rs: the ZIP64 extra field, `Zip64Extra`.
pub mod Areas
use async_chunker.Prelude.{
  ℕ, zero, suc, ◌+◌, ◌-◌, Bool, Option, none, some, List, [], ◌∷◌, ltb, leb, ◌==◌, if◌then◌else◌,
  Bytes, length, take, drop,
}
use async_chunker.Result.{Result, ok, err}
use async_chunker.Zip.Fault.{ZipFault, malformed_extra_field}
use async_chunker.Zip.Numbers.{W, u16_at, from_le}

-- `Zip64Extra::ID`
abbrev pub zip64_id : ℕ
zip64_id = 1

-- The loop of `find`, in what is left behind `at`; each round drops a header of four bytes at least.
unfoldable pub find_from : ℕ → Bytes → W (Option Bytes)
find_from zero extra = ok none
find_from (suc fuel) [] = ok none
find_from (suc fuel) (b ∷ bs) =
    let extra = b ∷ bs in
    let size = u16_at extra 2 in
    let rest = find_from fuel (drop size (drop 4 extra)) in
    if ltb (length extra) 4
    then err malformed_extra_field
    else if ltb (length extra) (4 + size)
    then err malformed_extra_field
    else if u16_at extra 0 == zip64_id
    then ok (some (take size (drop 4 extra)))
    else rest

-- The data of the field, if there is one.
unfoldable pub find : Bytes → W (Option Bytes)
unfolding find_from
find extra = find_from (length extra) extra

-- `chunks_exact(8)` of what is left.
abbrev pub fields_from : ℕ → Bytes → List ℕ
fields_from zero raw = []
fields_from (suc fuel) raw =
    if ltb (length raw) 8 then [] else from_le (take 8 raw) ∷ fields_from fuel (drop 8 raw)

abbrev pub fields : Bytes → List ℕ
fields raw = fields_from (length raw) raw
