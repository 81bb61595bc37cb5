-- ===== src/FramedAudio/Room.antt =====
-- How much a chunk may hold in each state of the frame walker.
use mathlib.Core.Path.{subst}
use async_chunker.Constants.{chunk_max}
use async_chunker.FramedAudio.{forced_seam_limit}
use async_chunker.FramedAudio.Headers.{body_len, block, adts_frame_len}
use async_chunker.FramedAudio.Mp3.{frame_len-bounds}
use async_chunker.FramedAudio.Walker.{
  Walker, W, Family, State, sniff, id3_header, frame_header, frame_payload, trailer, complete,
  flac_meta_header, opaque, audio, boundary, flac_meta, flac_audio, After, needed, frame_len_of,
  frame_left, begin_opaque, is_adts, step, counted, consume, sniffed, sniff_sync, sniff_flac, put,
  header_max,
}
use async_chunker.Prelude.{
  ℕ, zero, suc, ◌+◌, ◌-◌, ◌≤◌, ◌<◌, ◌≡◌, inl, inr, refl, sym, not, Option, arith, Bytes, ltb,
  if_cases, if◌then◌else◌, Bool-cases,
}
use async_chunker.Result.{ok, err, Ensures, Ensures-bind}

-- With n bytes collected: at a seam at most `seam`, inside an opaque region at most `dense`, and
-- anywhere else so few that the unit begun still fits. What is spent on telling units apart is bounded
-- generously: it does not ask which byte came first.
abbrev pub Room : ℕ → ℕ → State → Option Family → ℕ → Type 0
Room seam dense (sniff zero) family n = n ≤ seam
Room seam dense (sniff (suc k)) family n = (n < forced_seam_limit + suc k) × (k < 3)
Room seam dense (id3_header k) family n = (n < forced_seam_limit + k + 4) × (k < 10)
Room seam dense (frame_header k) family n = (n < forced_seam_limit + k + 2) × (k < needed family)
Room seam dense (frame_payload r) family n = (0 < r) × (n + r ≤ chunk_max)
Room seam dense (trailer k) family n = (n < forced_seam_limit + k + 4) × (k < 128)
Room seam dense complete family n = n < chunk_max
Room seam dense (flac_meta_header zero) family n = n ≤ seam
Room seam dense (flac_meta_header (suc k)) family n = (n < forced_seam_limit + suc k) × (k < 3)
Room seam dense (opaque r next) family n = (0 < r) × (n ≤ dense)
Room seam dense audio family n = n ≤ dense

-- Before a byte, once a seam was judged; and right after it.
abbrev pub Ready : State → Option Family → ℕ → Type 0
Ready = Room (forced_seam_limit - 1) (chunk_max - 1)

abbrev pub Moved : State → Option Family → ℕ → Type 0
Moved = Room chunk_max chunk_max

adts_frame_len-bounds :
    (header : Bytes) → Ensures (λ n. (7 ≤ n) × (n ≤ 8191)) (adts_frame_len header)
unfolding adts_frame_len
adts_frame_len-bounds header = ground arith

frame_len_of-bounds :
    (family : Option Family) (header : Bytes)
    → Ensures (λ n. (needed family ≤ n) × (n ≤ 8191)) (frame_len_of family header)
unfolding frame_len_of
frame_len_of-bounds family header = elim (Bool-cases (is_adts family)) [
  | inl y ↦ rw y (adts_frame_len-bounds header)
  | inr n ↦ rw n (frame_len-bounds header)
]

arrived :
    (next : After) (family : Option Family) (r n : ℕ)
    → n ≤ chunk_max
    → Moved (begin_opaque r next) family n
arrived next family r n h = ground arith

-- A result of which nothing is asked.
anything : {A : Type 0} (r : W A) → Ensures (λ _. Unit {0}) r
anything (ok a) = tt
anything (err fault) = tt

sniffed-Moved :
    (w : Walker) (b len n : ℕ)
    → Ready (sniff len) w.family n
    → Ensures (λ v. Moved v.state v.family (n + 1)) (sniffed w b len)
unfolding sniffed sniff_sync sniff_flac
sniffed-Moved w b zero n r = ground arith
sniffed-Moved w b (suc len) n r = ground arith

-- A header read to its end, and one that goes on.
id3_header-Moved :
    (w : Walker) (b len n : ℕ)
    → Ready (id3_header len) w.family n
    → Ensures (λ v. Moved v.state v.family (n + 1)) (step (id3_header len) w b)
unfolding step
id3_header-Moved w b len n r =
    if_cases (Ensures (λ v. Moved v.state v.family (n + 1))) (ltb (len + 1) header_max) _ _
      (λ more. ground arith)
      (λ whole.
        Ensures-bind (λ _. Unit) (λ v. Moved v.state v.family (n + 1))
          (body_len (put w len b).header) _ (anything (body_len (put w len b).header))
          (λ body _. arrived boundary w.family body (n + 1) (omega arith)))

frame_header-Moved :
    (w : Walker) (b len n : ℕ)
    → Ready (frame_header len) w.family n
    → Ensures (λ v. Moved v.state v.family (n + 1)) (step (frame_header len) w b)
unfolding step
frame_header-Moved w b len n r =
    if_cases (Ensures (λ v. Moved v.state v.family (n + 1))) (ltb (len + 1) (needed w.family)) _ _
      (λ more. (omega arith, ground arith))
      (λ whole.
        Ensures-bind (λ l. (needed w.family ≤ l) × (l ≤ 8191)) (λ v. Moved v.state v.family (n + 1))
          (frame_len_of w.family (put w len b).header) _
          (frame_len_of-bounds w.family (put w len b).header)
          (λ l h.
            let last : needed w.family ≤ len + 1 = ground arith in
            left_over w.family l len n (r.0) (r.1) last h))
  where
    left_over :
        (family : Option Family) (l len n : ℕ)
        → n < forced_seam_limit + len + 2
        → len < needed family
        → needed family ≤ len + 1
        → (needed family ≤ l) × (l ≤ 8191)
        → Moved (frame_left (l - needed family)) family (n + 1)
    left_over family l len n a b c h = ground arith

flac_meta_header-Moved :
    (w : Walker) (b len n : ℕ)
    → n < forced_seam_limit + len
    → len < 4
    → Ensures (λ v. Moved v.state v.family (n + 1)) (step (flac_meta_header len) w b)
unfolding step
flac_meta_header-Moved w b len n r k =
    if_cases (Ensures (λ v. Moved v.state v.family (n + 1))) (ltb (len + 1) 4) _ _
      (λ more. next_byte len r k (ground arith))
      (λ whole.
        Ensures-bind (λ _. Unit) (λ v. Moved v.state v.family (n + 1))
          (block (put w len b).header (not w.seen_frame)) _
          (anything (block (put w len b).header (not w.seen_frame)))
          (λ body _.
            arrived (if body.last then flac_audio else flac_meta) w.family body.length (n + 1)
              (omega arith)))
  where
    next_byte :
        (len : ℕ)
        → n < forced_seam_limit + len
        → len < 4
        → len + 1 < 4
        → Moved (flac_meta_header (len + 1)) w.family (n + 1)
    next_byte len r k h =
        let succ : suc len ≡ len + 1 = omega arith in
        subst (λ (m : ℕ). Moved (flac_meta_header m) w.family (n + 1)) succ
          (omega arith, omega arith)

step-Moved :
    (st : State) (w : Walker) (b n : ℕ)
    → w.state ≡ st
    → Ready st w.family n
    → Ensures (λ v. Moved v.state v.family (n + 1)) (step st w b)
unfolding step
step-Moved (sniff len) w b n e r = sniffed-Moved (put w len b) b len n r
step-Moved (id3_header len) w b n e r = id3_header-Moved w b len n r
step-Moved (frame_header len) w b n e r = frame_header-Moved w b len n r
step-Moved (frame_payload left) w b n e r = ground arith
step-Moved (trailer len) w b n e r = ground arith
step-Moved complete w b n e r = tt
step-Moved (flac_meta_header zero) w b n e r =
    flac_meta_header-Moved w b 0 n (omega arith) (omega arith)
step-Moved (flac_meta_header (suc len)) w b n e r =
    flac_meta_header-Moved w b (suc len) n (r.0) (omega (arith, r.1))
step-Moved (opaque left next) w b n e r = arrived next w.family (left - 1) (n + 1) (omega arith)
step-Moved audio w b n e r = subst (λ (st : State). Moved st w.family (n + 1)) (sym e) (omega arith)

-- After one byte of a stream that goes on.
pub consume-Moved :
    (w : Walker) (b n : ℕ)
    → Ready w.state w.family n
    → Ensures (λ _. Moved (consume w b).0.state (consume w b).0.family (n + 1)) (consume w b).1
unfolding consume counted
consume-Moved w b n r = counted-Moved (step w.state w b) (step-Moved w.state w b n refl r)
  where
    counted-Moved :
        (s : W Walker)
        → Ensures (λ v. Moved v.state v.family (n + 1)) s
        → Ensures (λ _. Moved (counted w s).0.state (counted w s).0.family (n + 1)) (counted w s).1
    counted-Moved (ok v) h = h
    counted-Moved (err fault) h = tt
