-- ===== src/Registry.antt =====
-- src/registry/table.rs: which profile chunks a media type.
pub mod Lookup
use async_chunker.MediaType.{MediaType}
use async_chunker.Prelude.Text.{codes, one_of}
use async_chunker.Prelude.{
  ℕ, ◌+◌, Bool, Option, none, some, List, [], ◌∷◌, ◌++◌, map, ◌==◌, if◌then◌else◌, Bytes, length,
}
use async_chunker.Profile.{
  ChunkingProfile, generic_cdc_v1, structured_text_v1, zip_v1, isobmff_v1, matroska_v1, mpegts_v1,
  framed_audio_v1, ooxml_v1, pdf_v1, id,
}

pub record Family : Type 0 where
  pub profile : ChunkingProfile
  pub essences : List Bytes

pub record ProfileRegistry : Type 0 where
  pub version : ℕ
  pub families : List Family

abbrev pub structured_text : List Bytes
structured_text = map codes (
    "text/plain" ∷ "text/markdown" ∷ "text/html" ∷ "text/css" ∷ "text/csv"
    ∷ "text/tab-separated-values" ∷ "text/xml" ∷ "text/calendar" ∷ "text/vcard" ∷ "text/javascript"
    ∷ "text/turtle" ∷ "text/n3" ∷ "application/json" ∷ "application/ld+json" ∷ "application/xml"
    ∷ "application/xhtml+xml" ∷ "application/rdf+xml" ∷ "application/n-triples"
    ∷ "application/n-quads" ∷ "application/trig" ∷ "application/sparql-query"
    ∷ "application/sparql-update" ∷ "application/sparql-results+json"
    ∷ "application/sparql-results+xml" ∷ "application/yaml" ∷ "application/toml"
    ∷ "application/javascript" ∷ "image/svg+xml" ∷ [])

abbrev pub zip : List Bytes
zip = map codes (
    "application/zip" ∷ "application/java-archive" ∷ "application/epub+zip"
    ∷ "application/vnd.openxmlformats-officedocument.wordprocessingml.document"
    ∷ "application/vnd.openxmlformats-officedocument.spreadsheetml.sheet"
    ∷ "application/vnd.openxmlformats-officedocument.presentationml.presentation"
    ∷ "application/vnd.oasis.opendocument.text" ∷ "application/vnd.oasis.opendocument.spreadsheet"
    ∷ "application/vnd.oasis.opendocument.presentation" ∷ [])

abbrev pub zip_v2 : List Bytes
zip_v2 = map codes (
    "application/zip" ∷ "application/java-archive" ∷ "application/epub+zip"
    ∷ "application/vnd.oasis.opendocument.text" ∷ "application/vnd.oasis.opendocument.spreadsheet"
    ∷ "application/vnd.oasis.opendocument.presentation" ∷ [])

abbrev pub ooxml : List Bytes
ooxml = map codes (
    "application/vnd.openxmlformats-officedocument.wordprocessingml.document"
    ∷ "application/vnd.openxmlformats-officedocument.spreadsheetml.sheet"
    ∷ "application/vnd.openxmlformats-officedocument.presentationml.presentation" ∷ [])

abbrev pub pdf : List Bytes
pdf = map codes ("application/pdf" ∷ [])

abbrev pub isobmff : List Bytes
isobmff = map codes (
    "video/mp4" ∷ "audio/mp4" ∷ "application/mp4" ∷ "video/quicktime" ∷ "image/heif" ∷ "image/heic"
    ∷ "image/avif" ∷ [])

abbrev pub matroska : List Bytes
matroska = map codes ("video/x-matroska" ∷ "audio/x-matroska" ∷ "video/webm" ∷ "audio/webm" ∷ [])

abbrev pub mpegts : List Bytes
mpegts = map codes ("video/mp2t" ∷ [])

abbrev pub framed_audio : List Bytes
framed_audio = map codes ("audio/mpeg" ∷ "audio/aac" ∷ "audio/flac" ∷ [])

abbrev pub v1_families : List Family
v1_families =
    record { profile = structured_text_v1; essences = structured_text }
    ∷ record { profile = zip_v1; essences = zip }
    ∷ record { profile = isobmff_v1; essences = isobmff }
    ∷ record { profile = matroska_v1; essences = matroska }
    ∷ record { profile = mpegts_v1; essences = mpegts }
    ∷ record { profile = framed_audio_v1; essences = framed_audio }
    ∷ []

abbrev pub v2_families : List Family
v2_families =
    record { profile = structured_text_v1; essences = structured_text }
    ∷ record { profile = zip_v1; essences = zip_v2 }
    ∷ record { profile = ooxml_v1; essences = ooxml }
    ∷ record { profile = pdf_v1; essences = pdf }
    ∷ record { profile = isobmff_v1; essences = isobmff }
    ∷ record { profile = matroska_v1; essences = matroska }
    ∷ record { profile = mpegts_v1; essences = mpegts }
    ∷ record { profile = framed_audio_v1; essences = framed_audio }
    ∷ []

abbrev pub v1 : ProfileRegistry
v1 = record { version = 1; families = v1_families }

abbrev pub v2 : ProfileRegistry
v2 = record { version = 2; families = v2_families }

-- The first family that lists the essence.
unfoldable pub find_family : Bytes → List Family → Option ChunkingProfile
find_family essence [] = none
find_family essence (f ∷ fs) =
    let rest = find_family essence fs in if one_of essence f.essences then some f.profile else rest

unfoldable pub specialist : ProfileRegistry → MediaType → Option ChunkingProfile
unfolding find_family
specialist r m = find_family m.essence r.families

abbrev unwrap_or : ChunkingProfile → Option ChunkingProfile → ChunkingProfile
unwrap_or p none = p
unwrap_or p (some q) = q

unfoldable pub select : ProfileRegistry → MediaType → ChunkingProfile
unfolding specialist
select r m = unwrap_or generic_cdc_v1 (specialist r m)

-- `==` on profiles, which their numbers tell apart.
abbrev pub same_profile : ChunkingProfile → ChunkingProfile → Bool
same_profile p q = id p == id q

unfoldable pub essences_in : ChunkingProfile → List Family → List Bytes
essences_in p [] = []
essences_in p (f ∷ fs) =
    let rest = essences_in p fs in if same_profile f.profile p then f.essences ++ rest else rest

unfoldable pub essences : ProfileRegistry → ChunkingProfile → List Bytes
unfolding essences_in
essences r p = essences_in p r.families

count_essences : List Family → ℕ
count_essences [] = 0
count_essences (f ∷ fs) = length f.essences + count_essences fs

unfoldable pub specialist_count : ProfileRegistry → ℕ
unfolding count_essences
specialist_count r = count_essences r.families
