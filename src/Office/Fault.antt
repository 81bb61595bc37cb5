-- ===== src/Office/Fault.antt =====
-- src/chunker/office/fault.rs: why a package is rejected.
use async_chunker.Errors.{ChunkError, malformed_profile_input}
use async_chunker.Prelude.{ℕ, String}
use async_chunker.Profile.{ChunkingProfile, name}
use async_chunker.Zip.Fault as Zip
use async_chunker.Zip.Fault.{ZipFault}

pub data OfficeFault : Type 0 where
  zip : ZipFault → OfficeFault
  not_ooxml_package missing_main_part unrecognized_package signed_package : OfficeFault
  unsupported_method malformed_deflate inflated_size_mismatch crc_mismatch : OfficeFault
  deflate_geometry metadata_over_bound unknown_size_member_too_large : OfficeFault

unfoldable pub detail : OfficeFault → String
unfolding Zip.detail
detail (zip fault) = Zip.detail fault
detail not_ooxml_package = "first member is not [Content_Types].xml"
detail missing_main_part = "declared Office kind's main part is missing"
detail unrecognized_package = "no Word, Excel, or PowerPoint main part"
detail signed_package =
    "package is digitally signed; canonicalization would invalidate the signature — store it byte-exact under ooxml-ber-v1"
detail unsupported_method = "member compression method is not stored or deflate"
detail malformed_deflate = "member deflate stream is malformed"
detail inflated_size_mismatch = "member inflates to a size other than declared"
detail crc_mismatch = "member inflates to bytes with a different CRC-32 than declared"
detail deflate_geometry = "member deflate stream ends out of step with its bytes"
detail metadata_over_bound = "package exceeds the canonicalization metadata bound"
detail unknown_size_member_too_large =
    "unknown-size member exceeds what a canonical descriptor can express"

unfoldable pub into_error : OfficeFault → ChunkingProfile → ℕ → ChunkError
unfolding detail name
into_error fault profile offset = malformed_profile_input (name profile) offset (detail fault)
