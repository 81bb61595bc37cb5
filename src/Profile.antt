-- ===== src/Profile.antt =====
-- src/profile.rs: the chunking profiles, their registry numbers and names.
use async_chunker.Prelude.{
  ℕ, ◌≡◌, ◌↔◌, arith, String, Option, none, some, List, [], ◌∷◌, ◌==◌, if◌then◌else◌,
}

pub data ChunkingProfile : Type 0 where
  generic_cdc_v1 structured_text_v1 zip_v1 isobmff_v1 matroska_v1 : ChunkingProfile
  mpegts_v1 framed_audio_v1 ooxml_v1 ooxml_ber_v1 pdf_v1 : ChunkingProfile

-- `ChunkingProfile::ALL`, in registry order.
abbrev pub all : List ChunkingProfile
all =
    generic_cdc_v1 ∷ structured_text_v1 ∷ zip_v1 ∷ isobmff_v1 ∷ matroska_v1 ∷ mpegts_v1
    ∷ framed_audio_v1 ∷ ooxml_v1 ∷ ooxml_ber_v1 ∷ pdf_v1 ∷ []

-- The number inside `ChunkingProfileId`.
unfoldable pub id : ChunkingProfile → ℕ
id generic_cdc_v1 = 1
id structured_text_v1 = 2
id zip_v1 = 3
id isobmff_v1 = 4
id matroska_v1 = 5
id mpegts_v1 = 6
id framed_audio_v1 = 7
id ooxml_v1 = 8
id ooxml_ber_v1 = 9
id pdf_v1 = 10

-- `ALL.into_iter().find(|profile| profile.id() == id)`
find_id : ℕ → List ChunkingProfile → Option ChunkingProfile
unfolding id
find_id n [] = none
find_id n (p ∷ ps) = if id p == n then some p else find_id n ps

unfoldable pub from_id : ℕ → Option ChunkingProfile
unfolding find_id
from_id n = find_id n all

unfoldable pub name : ChunkingProfile → String
name generic_cdc_v1 = "generic-cdc-v1"
name structured_text_v1 = "structured-text-v1"
name zip_v1 = "zip-v1"
name isobmff_v1 = "isobmff-v1"
name matroska_v1 = "matroska-v1"
name mpegts_v1 = "mpegts-v1"
name framed_audio_v1 = "framed-audio-v1"
name ooxml_v1 = "ooxml-v1"
name ooxml_ber_v1 = "ooxml-ber-v1"
name pdf_v1 = "pdf-v1"

-- A number is resolved to a profile exactly when it is that profile's number.
pub from_id_iff : (p : ChunkingProfile) (n : ℕ) → (from_id n ≡ some p) ↔ (n ≡ id p)
unfolding from_id
from_id_iff generic_cdc_v1 n = ground arith
from_id_iff _ n = ground arith
