-- ===== src/Matroska/Elements.antt =====
-- src/chunker/matroska/elements.rs and fault.rs: the element vocabulary, and why a stream is rejected.
use async_chunker.Errors.{ChunkError, malformed_profile_input}
use async_chunker.Prelude.{ℕ, Bool, false, ◌||◌, String, List, [], ◌∷◌, ◌==◌}
use async_chunker.Profile.{matroska_v1, name}

abbrev pub ebml_header : ℕ
ebml_header = 0x1a45dfa3

abbrev pub segment_id : ℕ
segment_id = 0x18538067

abbrev pub void : ℕ
void = 0xec

abbrev pub cluster_id : ℕ
cluster_id = 0x1f43b675

abbrev segment_level : List ℕ
segment_level =
    cluster_id ∷ 0x114d9b74 ∷ 0x1549a966 ∷ 0x1654ae6b ∷ 0x1c53bb6b ∷ 0x1043a770 ∷ 0x1254c367
    ∷ 0x1941a469 ∷ []

abbrev cluster_children : List ℕ
cluster_children = 0xe7 ∷ 0xa7 ∷ 0xab ∷ 0xa3 ∷ 0xa0 ∷ 0xaf ∷ 0x5854 ∷ void ∷ 0xbf ∷ []

-- `contains`
contains : List ℕ → ℕ → Bool
contains [] x = false
contains (y ∷ ys) x = y == x || contains ys x

unfoldable pub is_segment_level : ℕ → Bool
unfolding contains
is_segment_level = contains segment_level

unfoldable pub is_cluster_child : ℕ → Bool
unfolding contains
is_cluster_child = contains cluster_children

pub data EbmlFault : Type 0 where
  not_matroska invalid_id invalid_size unknown_size_forbidden : EbmlFault
  element_overruns_parent top_level_element unexpected_cluster_child truncated : EbmlFault

detail : EbmlFault → String
detail not_matroska = "stream does not begin with the EBML header"
detail invalid_id = "invalid EBML element ID"
detail invalid_size = "invalid EBML element size"
detail unknown_size_forbidden = "unknown size outside Segment and Cluster"
detail element_overruns_parent = "element runs past its parent"
detail top_level_element = "unexpected top-level element"
detail unexpected_cluster_child = "unexpected element inside an open cluster"
detail truncated = "stream ends inside an element"

unfoldable pub into_error : EbmlFault → ℕ → ChunkError
unfolding detail name
into_error fault offset = malformed_profile_input (name matroska_v1) offset (detail fault)
