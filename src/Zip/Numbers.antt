-- ===== src/Zip/Numbers.antt =====
-- src/chunker/zip/records.rs: little-endian numbers, and the size claims of a member.
use async_chunker.Prelude.{
  ℕ, ◌+◌, ◌*◌, ◌^◌, ◌%◌, ◌-◌, ◌||◌, [], ◌∷◌, ltb, ◌==◌, if◌then◌else◌, Bytes, get_or, take, drop,
}
use async_chunker.Result.{Result, ok, err}
use async_chunker.Zip.Fault.{ZipFault, stored_sizes_disagree, implausible_expansion}

abbrev pub W : Type 0 → Type 0
W = Result ZipFault

-- `from_le_bytes`
abbrev pub from_le : Bytes → ℕ
from_le [] = 0
from_le (b ∷ bs) = b % 256 + 256 * from_le bs

abbrev pub u16_at : Bytes → ℕ → ℕ
u16_at bytes at = from_le (get_or bytes at 0 ∷ get_or bytes (at + 1) 0 ∷ [])

abbrev pub u32_at : Bytes → ℕ → ℕ
u32_at bytes at = from_le (
    get_or bytes at 0
    ∷ get_or bytes (at + 1) 0
    ∷ get_or bytes (at + 2) 0
    ∷ get_or bytes (at + 3) 0
    ∷ [])

abbrev pub u64_at : Bytes → ℕ → ℕ
u64_at bytes at = from_le (take 8 (drop at bytes))

abbrev pub zip64_marker_32 : ℕ
zip64_marker_32 = 2 ^ 32 - 1

abbrev pub zip64_marker_16 : ℕ
zip64_marker_16 = 2 ^ 16 - 1

abbrev pub method_stored : ℕ
method_stored = 0

abbrev pub method_deflate : ℕ
method_deflate = 8

abbrev pub method_deflate64 : ℕ
method_deflate64 = 9

abbrev pub max_deflate_ratio : ℕ
max_deflate_ratio = 1032

abbrev pub deflate_ratio_slack : ℕ
deflate_ratio_slack = 64

-- What the saturating operations on `u64` do with a result.
abbrev pub saturate : ℕ → ℕ
saturate n = if ltb n (2 ^ 64) then n else 2 ^ 64 - 1

pub record MemberSizes : Type 0 where
  pub compressed : ℕ
  pub uncompressed : ℕ

-- The most bytes that a deflated member of that size may claim.
abbrev pub most : ℕ → ℕ
most compressed = saturate (saturate (compressed * max_deflate_ratio) + deflate_ratio_slack)

unfoldable pub check : MemberSizes → ℕ → W (Unit {0})
check sizes method =
    if method == method_stored
    then (if sizes.compressed == sizes.uncompressed then ok tt else err stored_sizes_disagree)
    else if method == method_deflate || method == method_deflate64
    then (if ltb (most sizes.compressed) sizes.uncompressed
        then err implausible_expansion
        else ok tt)
    else ok tt
