-- ===== src/Decompose/Sink.antt =====
-- src/decompose/sink.rs: the entries of an archive that are not members.
use async_chunker.Prelude.{ℕ, Bytes}

pub data EntryKind : Type 0 where
  directory : EntryKind
  symlink hardlink : Bytes → EntryKind
  other : ℕ → EntryKind
