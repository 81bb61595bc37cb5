-- ===== src/Probe/Detection.antt =====
-- src/probe/detector.rs and detection.rs: what the probes conclude, and how that is reconciled.
use async_chunker.Constants.{probe_prefix_max}
use async_chunker.Errors.{ChunkError, ProfileSet, ambiguous_detection, declared_detected_mismatch}
use async_chunker.Prelude.{
  ℕ, zero, suc, Bool, ◌&&◌, ◌||◌, List, [], ◌∷◌, if◌then◌else◌, Bytes, take,
}
use async_chunker.Probe.Probes.{Probe}
use async_chunker.Probe.Set.{empty, same, insert, single, contains, len, is_empty, iter}
use async_chunker.Profile.{
  ChunkingProfile, generic_cdc_v1, zip_v1, ooxml_v1, ooxml_ber_v1, id, name,
}
use async_chunker.Result.{Result, ok, err}

pub data Detection : Type 0 where
  unrecognized : Detection
  recognized : ChunkingProfile → Detection
  ambiguous : ProfileSet → Detection

-- The loop of `detect`.
unfoldable pub matched : List Probe → Bytes → ProfileSet → ProfileSet
unfolding insert
matched [] prefix set = set
matched (p ∷ probes) prefix set =
    matched probes prefix (if p.matches prefix then insert set p.profile else set)

-- The first member of a set of one; that it has none is not reached.
abbrev pub only : List ChunkingProfile → Detection
only [] = unrecognized
only (p ∷ ps) = recognized p

-- The match on the number of members.
abbrev pub by_count : ℕ → ProfileSet → Detection
unfolding iter
by_count zero set = unrecognized
by_count (suc zero) set = only (iter set)
by_count (suc (suc n)) set = ambiguous set

unfoldable pub concluded : ProfileSet → Detection
unfolding len iter
concluded set = by_count (len set) set

unfoldable pub detect : List Probe → Bytes → Detection
unfolding matched concluded
detect probes prefix = concluded (matched probes (take probe_prefix_max prefix) empty)

unfoldable pub candidates : Detection → ProfileSet
unfolding single
candidates unrecognized = empty
candidates (recognized profile) = single profile
candidates (ambiguous set) = set

unfoldable pub resolve : Detection → Result ChunkError ChunkingProfile
resolve unrecognized = ok generic_cdc_v1
resolve (recognized profile) = ok profile
resolve (ambiguous set) = err (ambiguous_detection set)

-- The declared profile is not contradicted by what was detected.
abbrev pub compatible : ProfileSet → ChunkingProfile → Bool
unfolding id contains is_empty
compatible detected declared =
    same declared generic_cdc_v1
    || is_empty detected
    || contains detected declared
    || (contains detected ooxml_v1 && (same declared ooxml_ber_v1 || same declared zip_v1))

unfoldable pub reconcile : Detection → ChunkingProfile → Result ChunkError ChunkingProfile
unfolding candidates contains is_empty name id
reconcile d declared =
    if compatible (candidates d) declared
    then ok declared
    else err (declared_detected_mismatch (name declared) (candidates d))
