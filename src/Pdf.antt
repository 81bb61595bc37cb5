-- ===== src/Pdf.antt =====
-- src/chunker/pdf: the chunker of `pdf-v1`.
pub mod Fault
pub mod Object
pub mod Integers
pub mod Walker
pub mod Chunker
