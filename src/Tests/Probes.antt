-- ===== src/Tests/Probes.antt =====
-- Runs of the detector.
use async_chunker.Constants.{probe_prefix_max}
use async_chunker.Errors.{declared_detected_mismatch}
use async_chunker.Prelude.Text.{codes}
use async_chunker.Prelude.{
  ◌≡◌, ◌≢◌, ◌↔◌, refl, true, [], ◌∷◌, ◌++◌, Bytes, All, arith, take, if◌then◌else◌,
}
use async_chunker.Probe.Agreement.{Detects, detections, stands, reconcile-detect}
use async_chunker.Probe.Detection.{ambiguous, detect, candidates, reconcile}
use async_chunker.Probe.Probes.{
  v1, v2, is_framed_audio, is_mpegts, is_matroska, is_isobmff, is_zip_not_ooxml, is_pdf,
}
use async_chunker.Probe.Text.Whole.{IsPlain, IsText-probe}
use async_chunker.Probe.Text.{is_structured_text_prefix}
use async_chunker.Profile.{matroska_v1, name}
use async_chunker.Result.{ok, err}
use async_chunker.Utf8.Scalars.{IsText}

abbrev note : Bytes
note = codes "a line" ++ 10 ∷ []

-- A box header whose size reads as a signature of archives.
abbrev two_faced : Bytes
two_faced = 0x50 ∷ 0x4b ∷ 3 ∷ 4 ∷ codes "ftyp"

finds_two : detect v2 two_faced ≡ ambiguous (record { bits = 12 })
unfolding detect is_framed_audio is_mpegts is_matroska is_isobmff is_zip_not_ooxml is_pdf
    is_structured_text_prefix
finds_two = refl

-- A document in ASCII is text, too.
text_document_is_ambiguous : detect v2 (codes "%PDF-1.4") ≡ ambiguous (record { bits = 514 })
unfolding detect is_framed_audio is_mpegts is_matroska is_isobmff is_zip_not_ooxml is_pdf
    is_structured_text_prefix
text_document_is_ambiguous = refl

detections_example :
    Detects v1 (take probe_prefix_max two_faced) (detect v1 two_faced)
    × Detects v2 (take probe_prefix_max two_faced) (detect v2 two_faced)
detections_example = detections two_faced

reconcile-detect_example : reconcile (detect v2 two_faced) matroska_v1 ≡ (
    if stands (take probe_prefix_max two_faced) matroska_v1
    then ok matroska_v1
    else err (declared_detected_mismatch (name matroska_v1) (candidates (detect v2 two_faced))))
reconcile-detect_example = reconcile-detect two_faced matroska_v1

IsText-probe_example :
    (is_structured_text_prefix note ≡ true) ↔ ((note ≢ []) × IsText note × All IsPlain note)
IsText-probe_example = IsText-probe note (omega arith)

-- Delete is a control character, but not of the C0 set.
delete_probes_as_text : is_structured_text_prefix (127 ∷ []) ≡ true
unfolding is_structured_text_prefix
delete_probes_as_text = refl
