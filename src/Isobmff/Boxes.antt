-- ===== src/Isobmff/Boxes.antt =====
-- src/chunker/isobmff/boxes.rs and fault.rs.
use async_chunker.Errors.{ChunkError, malformed_profile_input}
use async_chunker.Prelude.Text.{codes, one_of}
use async_chunker.Prelude.{ℕ, Bool, String, List, [], ◌∷◌, Bytes}
use async_chunker.Profile.{isobmff_v1, name}

-- A four-character box type.
abbrev pub uuid : Bytes
uuid = codes "uuid"

abbrev first_boxes : List Bytes
first_boxes =
    codes "ftyp"
    ∷ codes "styp"
    ∷ codes "sidx"
    ∷ codes "moov"
    ∷ codes "moof"
    ∷ codes "free"
    ∷ codes "skip"
    ∷ codes "wide"
    ∷ codes "mdat"
    ∷ []

abbrev containers : List Bytes
containers =
    codes "moov"
    ∷ codes "trak"
    ∷ codes "edts"
    ∷ codes "mdia"
    ∷ codes "minf"
    ∷ codes "dinf"
    ∷ codes "stbl"
    ∷ codes "mvex"
    ∷ codes "moof"
    ∷ codes "traf"
    ∷ codes "mfra"
    ∷ codes "udta"
    ∷ codes "sinf"
    ∷ codes "schi"
    ∷ []

unfoldable pub may_begin_stream : Bytes → Bool
unfolding one_of
may_begin_stream kind = one_of kind first_boxes

unfoldable pub is_container : Bytes → Bool
unfolding one_of
is_container kind = one_of kind containers

pub data BoxFault : Type 0 where
  not_an_iso_bmff_stream size_below_header open_size_nested : BoxFault
  child_overruns_parent depth_exceeded truncated : BoxFault

detail : BoxFault → String
detail not_an_iso_bmff_stream = "stream does not begin with an ISO BMFF box"
detail size_below_header = "box size is smaller than its header"
detail open_size_nested = "open-ended box size below top level"
detail child_overruns_parent = "child box runs past its parent"
detail depth_exceeded = "box nesting exceeds the frozen depth bound"
detail truncated = "stream ends inside a box"

unfoldable pub into_error : BoxFault → ℕ → ChunkError
unfolding detail name
into_error fault offset = malformed_profile_input (name isobmff_v1) offset (detail fault)
