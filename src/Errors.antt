-- ===== src/Errors.antt =====
-- src/error.rs, and the error of src/media_type/mod.rs that it carries.
use async_chunker.Prelude.{ℕ, String, Bytes}

-- `ProfileSet` of src/probe/set.rs: a bit for each profile, in registry order.
pub record ProfileSet : Type 0 where
  pub bits : ℕ

pub data MediaTypeError : Type 0 where
  empty missing_slash : MediaTypeError
  invalid_top_level invalid_subtype : ℕ → MediaTypeError
  name_too_long : String → ℕ → MediaTypeError
  malformed_parameter : ℕ → MediaTypeError
  duplicate_parameter : Bytes → MediaTypeError
  too_many_parameters : ℕ → MediaTypeError

-- The fields stand in the source's order; a profile stands by its name.
pub data ChunkError : Type 0 where
  io : String → ChunkError
  profile_unimplemented : String → ChunkError
  malformed_profile_input : String → ℕ → String → ChunkError
  profile_stream_rejected : String → ChunkError
  malformed_media_type : MediaTypeError → ChunkError
  ambiguous_detection : ProfileSet → ChunkError
  declared_detected_mismatch : String → ProfileSet → ChunkError
