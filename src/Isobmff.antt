-- ===== src/Isobmff.antt =====
-- src/chunker/isobmff: the ISO base media box walker and the `isobmff-v1` chunker.
pub mod Boxes
pub mod Walker
pub mod Chunker
