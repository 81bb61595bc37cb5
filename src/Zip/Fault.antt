-- ===== src/Zip/Fault.antt =====
-- src/chunker/zip/fault.rs: why the walker rejects an archive.
use async_chunker.Errors.{ChunkError, malformed_profile_input}
use async_chunker.Prelude.{ℕ, String}
use async_chunker.Profile.{zip_v1, name}

pub data ZipFault : Type 0 where
  unknown_signature member_after_central_directory record_out_of_sequence : ZipFault
  missing_zip64_sizes malformed_extra_field stored_sizes_disagree implausible_expansion : ZipFault
  descriptor_size_mismatch central_offset_out_of_range entry_count_mismatch : ZipFault
  central_directory_geometry trailing_bytes truncated : ZipFault

unfoldable pub detail : ZipFault → String
detail unknown_signature = "unknown ZIP record signature"
detail member_after_central_directory = "local file header after the central directory"
detail record_out_of_sequence = "end-of-archive record out of sequence"
detail missing_zip64_sizes = "size field is 0xFFFFFFFF without a ZIP64 extra field"
detail malformed_extra_field = "extra field runs past its area"
detail stored_sizes_disagree = "stored member declares unequal sizes"
detail implausible_expansion = "deflated member declares an impossible expansion ratio"
detail descriptor_size_mismatch = "data descriptor disagrees with the member bytes"
detail central_offset_out_of_range = "central directory entry offset is out of range"
detail entry_count_mismatch = "end-of-central-directory entry count mismatch"
detail central_directory_geometry = "central directory offset or size mismatch"
detail trailing_bytes = "bytes after the archive comment"
detail truncated = "archive ends inside a record or before its end record"

unfoldable pub into_error : ZipFault → ℕ → ChunkError
unfolding detail name
into_error fault offset = malformed_profile_input (name zip_v1) offset (detail fault)
