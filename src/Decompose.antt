-- ===== src/Decompose.antt =====
-- src/decompose: the walk over the members of an archive.
pub mod Fault
pub mod Sink
pub mod Tar
