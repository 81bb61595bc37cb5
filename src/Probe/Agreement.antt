-- ===== src/Probe/Agreement.antt =====
-- What detection concludes of a prefix, and how a declaration fares against it.
use mathlib.Core.Path.{subst}
use async_chunker.Constants.{probe_prefix_max}
use async_chunker.Errors.{declared_detected_mismatch}
use async_chunker.Prelude.{
  ℕ, ◌≡◌, refl, sym, ap, ◌∙◌, Bool, true, ◌&&◌, ◌||◌, List, arith, ◌==◌, if◌then◌else◌, Bytes, take,
  length,
}
use async_chunker.Probe.Detection.{Detection, matched, concluded, detect, candidates, reconcile}
use async_chunker.Probe.Probes.{Probe, v1, v2}
use async_chunker.Probe.Set.{empty, same, contains, is_empty}
use async_chunker.Probe.Tables.{
  probed, hits, Form, profiles, answers, gather, flagged, count, every_answers, agree, in_order,
  matched-gather, probed-flagged, hits-count, length-answers, every_answers_lem, every_profile_lem,
  agree_eq, has_form-Form, table_v2, table_v1,
}
use async_chunker.Profile.{
  ChunkingProfile, generic_cdc_v1, zip_v1, ooxml_v1, ooxml_ber_v1, id, name,
}
use async_chunker.Result.{ok, err}

-- The candidates are the profiles whose probes match, and there are as many as the outcome says.
pub record Detects (probes : List Probe) (prefix : Bytes) (d : Detection) : Type 0 where
  pub found : (q : ChunkingProfile) → contains (candidates d) q ≡ probed probes q prefix
  pub none_found : is_empty (candidates d) ≡ (hits probes prefix == 0)
  pub form : Form (hits probes prefix) d

both : (a b : Bool) → (a && b) ≡ true → (a ≡ true) × (b ≡ true)
both a b e = ground arith

in_order-Detects :
    (ps : List Probe) (prefix : Bytes)
    → in_order (profiles ps) (answers ps prefix) ≡ true
    → Detects ps prefix (concluded (matched ps prefix empty))
unfolding in_order
in_order-Detects ps prefix e =
    let bs = answers ps prefix in
    let d = concluded (gather (profiles ps) bs empty) in
    let (first, form) = both _ _ e in
    let (found, none_found) = both _ _ first in
    rw (matched-gather ps prefix empty) (record {
      found = λ q.
          agree_eq (contains (candidates d) q) (flagged (profiles ps) bs q) (
            every_profile_lem (λ p. agree (contains (candidates d) p) (flagged (profiles ps) bs p))
              q found)
          ∙ sym (probed-flagged ps q prefix);
      none_found =
          agree_eq (is_empty (candidates d)) (count bs == 0) none_found
          ∙ ap (λ (n : ℕ). n == 0) (sym (hits-count ps prefix));
      form =
          subst (λ (n : ℕ). Form n d) (sym (hits-count ps prefix))
            (has_form-Form (count bs) d form);
    })

by_table :
    (ps : List Probe) (bytes : Bytes)
    → every_answers (length ps) (in_order (profiles ps)) ≡ true
    → Detects ps (take probe_prefix_max bytes) (detect ps bytes)
unfolding detect
by_table ps bytes e =
    let prefix = take probe_prefix_max bytes in
    in_order-Detects ps prefix (
      every_answers_lem (length ps) (in_order (profiles ps)) (answers ps prefix) e
        (length-answers ps prefix))

-- In both versions, the candidates of a detection are exactly the profiles whose probes match the first 512
-- bytes, held as bits of a set; and it is unrecognized, recognized or ambiguous as none, one or more of the
-- probes match.
pub detections :
    (bytes : Bytes)
    → Detects v1 (take probe_prefix_max bytes) (detect v1 bytes)
      × Detects v2 (take probe_prefix_max bytes) (detect v2 bytes)
detections bytes = (by_table v1 bytes table_v1, by_table v2 bytes table_v2)

-- What a declaration survives.
abbrev pub stands : Bytes → ChunkingProfile → Bool
unfolding id probed hits
stands prefix declared =
    same declared generic_cdc_v1
    || hits v2 prefix == 0
    || probed v2 declared prefix
    || (probed v2 ooxml_v1 prefix && (same declared ooxml_ber_v1 || same declared zip_v1))

-- A declared profile is kept if it is the generic one, if no probe of the second version matches the first
-- 512 bytes, if its own probe does, or if the Office probe does and it is `ooxml-ber-v1` or `zip-v1`;
-- else it is refused, with the profiles that were detected.
pub reconcile-detect :
    (bytes : Bytes) (declared : ChunkingProfile)
    → reconcile (detect v2 bytes) declared ≡ (
        if stands (take probe_prefix_max bytes) declared
        then ok declared
        else err (declared_detected_mismatch (name declared) (candidates (detect v2 bytes))))
unfolding reconcile stands
reconcile-detect bytes declared =
    let d = (detections bytes).1 in rw (d.none_found, d.found declared, d.found ooxml_v1) refl
