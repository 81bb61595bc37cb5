-- ===== src/Decompose/Tar.antt =====
-- src/decompose/tar.rs: the forward-only walker over TAR archives.
pub mod Fields
pub mod Pax
pub mod Walker
