-- ===== src/Probe/Tables.antt =====
-- What detection concludes, by which probes match.
use async_chunker.Errors.{ProfileSet}
use async_chunker.Prelude.{
  ℕ, zero, suc, ◌≡◌, refl, sym, ap, Bool, true, false, ◌&&◌, ◌||◌, List, [], ◌∷◌, arith, ◌==◌,
  if◌then◌else◌, Bytes, length,
}
use async_chunker.Probe.Detection.{
  Detection, unrecognized, recognized, ambiguous, matched, concluded, candidates,
}
use async_chunker.Probe.Probes.{Probe, v1, v2}
use async_chunker.Probe.Set.{empty, same, insert, contains, is_empty}
use async_chunker.Profile.{
  ChunkingProfile, generic_cdc_v1, structured_text_v1, zip_v1, isobmff_v1, matroska_v1, mpegts_v1,
  framed_audio_v1, ooxml_v1, ooxml_ber_v1, pdf_v1, id,
}

-- Whether a probe of that profile matches, and how many probes match.
unfoldable pub probed : List Probe → ChunkingProfile → Bytes → Bool
unfolding id
probed [] q prefix = false
probed (p ∷ ps) q prefix = (same p.profile q && p.matches prefix) || probed ps q prefix

unfoldable pub hits : List Probe → Bytes → ℕ
hits [] prefix = 0
hits (p ∷ ps) prefix = if p.matches prefix then suc (hits ps prefix) else hits ps prefix

-- None, one or several.
abbrev pub Form : ℕ → Detection → Type 0
Form zero d = d ≡ unrecognized
Form (suc zero) d = (p : ChunkingProfile) × (d ≡ recognized p)
Form (suc (suc n)) d = (set : ProfileSet) × (d ≡ ambiguous set)

-- The same by a list of answers.
unfoldable pub profiles : List Probe → List ChunkingProfile
profiles [] = []
profiles (p ∷ ps) = p.profile ∷ profiles ps

unfoldable pub answers : List Probe → Bytes → List Bool
answers [] prefix = []
answers (p ∷ ps) prefix = p.matches prefix ∷ answers ps prefix

unfoldable pub gather : List ChunkingProfile → List Bool → ProfileSet → ProfileSet
gather (p ∷ ps) (b ∷ bs) set = gather ps bs (if b then insert set p else set)
gather _ _ set = set

unfoldable pub flagged : List ChunkingProfile → List Bool → ChunkingProfile → Bool
unfolding id
flagged (p ∷ ps) (b ∷ bs) q = (same p q && b) || flagged ps bs q
flagged _ _ q = false

unfoldable pub count : List Bool → ℕ
count [] = 0
count (b ∷ bs) = if b then suc (count bs) else count bs

pub matched-gather :
    (ps : List Probe) (prefix : Bytes) (set : ProfileSet)
    → matched ps prefix set ≡ gather (profiles ps) (answers ps prefix) set
unfolding matched gather profiles answers
matched-gather [] prefix set = refl
matched-gather (p ∷ ps) prefix set =
    matched-gather ps prefix (if p.matches prefix then insert set p.profile else set)

pub probed-flagged :
    (ps : List Probe) (q : ChunkingProfile) (prefix : Bytes)
    → probed ps q prefix ≡ flagged (profiles ps) (answers ps prefix) q
unfolding probed flagged profiles answers
probed-flagged [] q prefix = refl
probed-flagged (p ∷ ps) q prefix =
    ap (λ (b : Bool). (same p.profile q && p.matches prefix) || b) (probed-flagged ps q prefix)

pub hits-count : (ps : List Probe) (prefix : Bytes) → hits ps prefix ≡ count (answers ps prefix)
unfolding hits count answers
hits-count [] prefix = refl
hits-count (p ∷ ps) prefix =
    ap (λ (n : ℕ). if p.matches prefix then suc n else n) (hits-count ps prefix)

pub length-answers : (ps : List Probe) (prefix : Bytes) → length (answers ps prefix) ≡ length ps
unfolding answers
length-answers [] prefix = refl
length-answers (p ∷ ps) prefix = ap suc (length-answers ps prefix)

-- Every list of so many answers, and every profile.
unfoldable pub every_answers : ℕ → (List Bool → Bool) → Bool
every_answers zero f = f []
every_answers (suc n) f = every_answers n (λ bs. f (true ∷ bs) && f (false ∷ bs))

pub every_answers_lem :
    (n : ℕ) (f : List Bool → Bool) (bs : List Bool)
    → every_answers n f ≡ true
    → length bs ≡ n
    → f bs ≡ true
unfolding every_answers
every_answers_lem zero f [] e h = e
every_answers_lem zero f (b ∷ bs) e h = absurd (omega arith)
every_answers_lem (suc n) f [] e h = absurd (omega arith)
every_answers_lem (suc n) f (b ∷ bs) e h =
    either b (every_answers_lem n (λ bs. f (true ∷ bs) && f (false ∷ bs)) bs e (omega arith))
  where
    either : (b : Bool) → (f (true ∷ bs) && f (false ∷ bs)) ≡ true → f (b ∷ bs) ≡ true
    either true k = ground arith
    either false k = ground arith

unfoldable pub every_profile : (ChunkingProfile → Bool) → Bool
every_profile f =
    f generic_cdc_v1
    && f structured_text_v1
    && f zip_v1
    && f isobmff_v1
    && f matroska_v1
    && f mpegts_v1
    && f framed_audio_v1
    && f ooxml_v1
    && f ooxml_ber_v1
    && f pdf_v1

pub every_profile_lem :
    (f : ChunkingProfile → Bool) (q : ChunkingProfile) → every_profile f ≡ true → f q ≡ true
unfolding every_profile
every_profile_lem f generic_cdc_v1 e = ground arith
every_profile_lem f _ e = ground arith

unfoldable pub agree : Bool → Bool → Bool
agree true b = b
agree false true = false
agree false false = true

pub agree_eq : (a b : Bool) → agree a b ≡ true → a ≡ b
unfolding agree
agree_eq true b e = sym e
agree_eq false true e = cc
agree_eq false false e = refl

unfoldable pub has_form : ℕ → Detection → Bool
has_form zero unrecognized = true
has_form (suc zero) (recognized p) = true
has_form (suc (suc n)) (ambiguous set) = true
has_form _ _ = false

pub has_form-Form : (n : ℕ) (d : Detection) → has_form n d ≡ true → Form n d
unfolding has_form
has_form-Form zero unrecognized e = refl
has_form-Form zero (recognized p) e = absurd cc
has_form-Form zero (ambiguous set) e = absurd cc
has_form-Form (suc zero) unrecognized e = absurd cc
has_form-Form (suc zero) (recognized p) e = (p, refl)
has_form-Form (suc zero) (ambiguous set) e = absurd cc
has_form-Form (suc (suc n)) unrecognized e = absurd cc
has_form-Form (suc (suc n)) (recognized p) e = absurd cc
has_form-Form (suc (suc n)) (ambiguous set) e = (set, refl)

-- The tables: for all answers, the candidates are the profiles whose probes match.
unfoldable pub in_order : List ChunkingProfile → List Bool → Bool
in_order ps bs =
    let d = concluded (gather ps bs empty) in
    every_profile (λ q. agree (contains (candidates d) q) (flagged ps bs q))
    && agree (is_empty (candidates d)) (count bs == 0)
    && has_form (count bs) d

pub table_v2 : every_answers 8 (in_order (profiles v2)) ≡ true
unfolding every_answers in_order profiles gather flagged count agree has_form every_profile
    concluded candidates contains is_empty insert
table_v2 = refl

pub table_v1 : every_answers 6 (in_order (profiles v1)) ≡ true
unfolding every_answers in_order profiles gather flagged count agree has_form every_profile
    concluded candidates contains is_empty insert
table_v1 = refl
