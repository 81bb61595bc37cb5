-- ===== src/Pdf/Fault.antt =====
-- src/chunker/pdf/fault.rs: why a document is rejected.
use async_chunker.Errors.{ChunkError, malformed_profile_input}
use async_chunker.Prelude.{ℕ, String}
use async_chunker.Profile.{pdf_v1, name}

pub data PdfFault : Type 0 where
  not_pdf bad_object_header bad_keyword bad_stream_eol : PdfFault
  xref_geometry truncated missing_eof : PdfFault

detail : PdfFault → String
detail not_pdf = "stream does not begin with %PDF-"
detail bad_object_header = "indirect object header is not 'number generation obj'"
detail bad_keyword = "unknown body keyword"
detail bad_stream_eol = "stream keyword is not followed by a line end"
detail xref_geometry = "malformed xref subsection"
detail truncated = "document ends inside an object, stream, xref table, or trailer"
detail missing_eof = "document ends without %%EOF"

unfoldable pub into_error : PdfFault → ℕ → ChunkError
unfolding detail name
into_error fault offset = malformed_profile_input (name pdf_v1) offset (detail fault)
