-- ===== src/Zip.antt =====
-- src/chunker/zip: the archive walker and the `zip-v1` chunker.
pub mod Fault
pub mod Numbers
pub mod Extra
pub mod Headers
pub mod State
pub mod Descriptor
pub mod Dispatch
pub mod Walker
pub mod Chunker
