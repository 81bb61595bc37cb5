-- ===== src/Decompose/Fault.antt =====
-- src/decompose/fault.rs: why decomposition stopped.
use async_chunker.Prelude.{ℕ, String}

pub data OpaqueReason : Type 0 where
  encrypted_without_key unsupported_compression : OpaqueReason
  unsupported_feature : String → OpaqueReason
  malformed : String → ℕ → OpaqueReason
  unsafe_path depth_exceeded metadata_over_bound : OpaqueReason
