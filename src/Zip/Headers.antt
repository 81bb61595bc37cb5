-- ===== src/Zip/Headers.antt =====
-- src/chunker/zip/records.rs: the records of an archive, parsed from the bytes behind their signatures.
use async_chunker.Prelude.{
  ℕ, ◌-◌, ◌/◌, ◌%◌, Bool, not, ◌||◌, List, [], ◌∷◌, ltb, ◌==◌, if◌then◌else◌, Bytes,
}
use async_chunker.Result.{ok, err, ◌>>=◌, ok_or}
use async_chunker.Zip.Extra.{find, fields}
use async_chunker.Zip.Fault.{missing_zip64_sizes, central_directory_geometry}
use async_chunker.Zip.Numbers.{W, u16_at, u32_at, u64_at, zip64_marker_32, MemberSizes}

abbrev pub local_header : Bytes
local_header = 0x50 ∷ 0x4b ∷ 0x03 ∷ 0x04 ∷ []

abbrev pub central_header : Bytes
central_header = 0x50 ∷ 0x4b ∷ 0x01 ∷ 0x02 ∷ []

abbrev pub end_of_central_directory : Bytes
end_of_central_directory = 0x50 ∷ 0x4b ∷ 0x05 ∷ 0x06 ∷ []

abbrev pub zip64_end_of_central_directory : Bytes
zip64_end_of_central_directory = 0x50 ∷ 0x4b ∷ 0x06 ∷ 0x06 ∷ []

abbrev pub zip64_locator : Bytes
zip64_locator = 0x50 ∷ 0x4b ∷ 0x06 ∷ 0x07 ∷ []

abbrev pub data_descriptor : Bytes
data_descriptor = 0x50 ∷ 0x4b ∷ 0x07 ∷ 0x08 ∷ []

pub record LocalHeader : Type 0 where
  pub method : ℕ
  pub crc : ℕ
  pub has_descriptor : Bool
  pub utf8_flag : Bool
  pub encrypted : Bool
  pub compressed : ℕ
  pub uncompressed : ℕ
  pub name_len : ℕ
  pub extra_len : ℕ

-- `LocalHeader::parse`; the flags are bits 3, 11 and 0.
unfoldable pub parse_local : Bytes → LocalHeader
parse_local bytes = record {
  method = u16_at bytes 4;
  crc = u32_at bytes 10;
  has_descriptor = not (u16_at bytes 2 / 8 % 2 == 0);
  utf8_flag = not (u16_at bytes 2 / 2048 % 2 == 0);
  encrypted = not (u16_at bytes 2 % 2 == 0);
  compressed = u32_at bytes 14;
  uncompressed = u32_at bytes 18;
  name_len = u16_at bytes 22;
  extra_len = u16_at bytes 24;
}

-- `==` with the marker of a 32-bit field
abbrev pub deferred : ℕ → Bool
deferred field = field == zip64_marker_32

abbrev pub needs_zip64 : LocalHeader → Bool
needs_zip64 h = deferred h.compressed || deferred h.uncompressed

-- `fields.next().ok_or(…)?`: the value, and the fields that are left.
abbrev pub next : List ℕ → W (ℕ × List ℕ)
next [] = err missing_zip64_sizes
next (v ∷ vs) = ok (v, vs)

-- The same, where the 32-bit field is deferred.
unfoldable pub next_if : Bool → ℕ → List ℕ → W (ℕ × List ℕ)
next_if wanted field values = if wanted then next values else ok (field, values)

-- `Zip64Extra::find(extra)?.ok_or(…)?.fields()`
unfoldable pub zip64_fields : Bytes → W (List ℕ)
unfolding find
zip64_fields extra = do found ← find extra; raw ← ok_or found missing_zip64_sizes; ok (fields raw)

-- The branch of `sizes` where a field is deferred.
unfoldable pub zip64_sizes : LocalHeader → Bytes → W MemberSizes
unfolding next_if zip64_fields
zip64_sizes h extra = do
  values ← zip64_fields extra
  u ← next_if (deferred h.uncompressed) h.uncompressed values
  c ← next_if (deferred h.compressed) h.compressed (u.1)
  ok (record { compressed = c.0; uncompressed = u.0 })

unfoldable pub sizes : LocalHeader → Bytes → W MemberSizes
unfolding zip64_sizes
sizes h extra =
    if needs_zip64 h
    then zip64_sizes h extra
    else ok (record { compressed = h.compressed; uncompressed = h.uncompressed })

pub record CentralHeader : Type 0 where
  pub method : ℕ
  pub compressed : ℕ
  pub uncompressed : ℕ
  pub name_len : ℕ
  pub extra_len : ℕ
  pub comment_len : ℕ
  pub local_offset : ℕ

-- `CentralHeader::parse`
unfoldable pub parse_central : Bytes → CentralHeader
parse_central bytes = record {
  method = u16_at bytes 6;
  compressed = u32_at bytes 16;
  uncompressed = u32_at bytes 20;
  name_len = u16_at bytes 24;
  extra_len = u16_at bytes 26;
  comment_len = u16_at bytes 28;
  local_offset = u32_at bytes 38;
}

-- The branch of `resolve` where a field is deferred.
unfoldable pub resolve_zip64 : CentralHeader → Bytes → W (MemberSizes × ℕ)
unfolding next_if zip64_fields
resolve_zip64 h extra = do
  values ← zip64_fields extra
  u ← next_if (deferred h.uncompressed) h.uncompressed values
  c ← next_if (deferred h.compressed) h.compressed (u.1)
  o ← next_if (deferred h.local_offset) h.local_offset (c.1)
  ok (record { compressed = c.0; uncompressed = u.0 }, o.0)

unfoldable pub resolve : CentralHeader → Bytes → W (MemberSizes × ℕ)
unfolding resolve_zip64
resolve h extra =
    if deferred h.compressed || deferred h.uncompressed || deferred h.local_offset
    then resolve_zip64 h extra
    else ok (record { compressed = h.compressed; uncompressed = h.uncompressed }, h.local_offset)

pub record EndRecord : Type 0 where
  pub entries_total : ℕ
  pub central_size : ℕ
  pub central_offset : ℕ
  pub comment_len : ℕ

-- `EndRecord::parse`
unfoldable pub parse_end : Bytes → EndRecord
parse_end bytes = record {
  entries_total = u16_at bytes 6;
  central_size = u32_at bytes 8;
  central_offset = u32_at bytes 12;
  comment_len = u16_at bytes 16;
}

pub record Zip64EndRecord : Type 0 where
  pub entries_total : ℕ
  pub central_size : ℕ
  pub central_offset : ℕ
  pub extensible_len : ℕ

-- `Zip64EndRecord::parse`, where `COVERED_FIXED` is 44.
unfoldable pub parse_zip64_end : Bytes → W Zip64EndRecord
parse_zip64_end bytes =
    let size = u64_at bytes 0 in
    if ltb size 44
    then err central_directory_geometry
    else ok (record {
      entries_total = u64_at bytes 28;
      central_size = u64_at bytes 36;
      central_offset = u64_at bytes 44;
      extensible_len = size - 44;
    })
