-- ===== src/Constants.antt =====
-- src/constants.rs: the size envelope and the cut masks.
use async_chunker.Prelude.{ℕ, ◌*◌, ◌^◌}

abbrev pub chunk_min : ℕ
chunk_min = 16 * 2 ^ 10

abbrev pub chunk_target : ℕ
chunk_target = 64 * 2 ^ 10

abbrev pub chunk_max : ℕ
chunk_max = 256 * 2 ^ 10

abbrev pub structured_text_strict_mask : ℕ
structured_text_strict_mask = 0x3ff * 2 ^ 54

abbrev pub structured_text_relaxed_mask : ℕ
structured_text_relaxed_mask = 0x7ff * 2 ^ 53

abbrev pub mpegts_strict_mask : ℕ
mpegts_strict_mask = 0xf * 2 ^ 60

abbrev pub mpegts_relaxed_mask : ℕ
mpegts_relaxed_mask = 0x3 * 2 ^ 62

abbrev pub framed_audio_strict_mask : ℕ
framed_audio_strict_mask = 0x7f * 2 ^ 57

abbrev pub framed_audio_relaxed_mask : ℕ
framed_audio_relaxed_mask = 0x1f * 2 ^ 59

abbrev pub probe_prefix_max : ℕ
probe_prefix_max = 512

abbrev pub document_unit_chunk_min : ℕ
document_unit_chunk_min = 4 * 2 ^ 10

abbrev pub max_media_type_name_bytes : ℕ
max_media_type_name_bytes = 127

abbrev pub max_media_type_parameters : ℕ
max_media_type_parameters = 16
