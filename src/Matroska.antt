-- ===== src/Matroska.antt =====
-- src/chunker/matroska: the EBML walker and the `matroska-v1` chunker.
pub mod Varint
pub mod Elements
pub mod Walker
pub mod Chunker
