-- ===== src/Probe/Text/Whole.antt =====
-- The probe of structured text on streams that are shorter than the prefix it may read.
use async_chunker.Constants.{probe_prefix_max}
use async_chunker.Prelude.{
  ℕ, ap, ◌+◌, ◌<◌, ◌≡◌, ◌≢◌, ◌↔◌, ◌⊎◌, ◌≤◌, Bool, ◌&&◌, ◌||◌, ◌==◌, All, refl, true, false, inl,
  inr, [], ◌∷◌, arith, leb, if◌then◌else◌, Bytes, length, is_empty, Bool-cases,
}
use async_chunker.Probe.Text.{
  Utf8Result, valid, cut_short, invalid, decode, from_utf8, is_printable, judged,
  is_structured_text_prefix,
}
use async_chunker.Result.{ok, Result-cases}
use async_chunker.Utf8
use async_chunker.Utf8.Scalars.{IsText}
use async_chunker.Utf8.Scan.{scan, utf8_iff}
use async_chunker.Utf8.{Utf8Scanner, Utf8Fault, start, at_boundary}

decode-scan :
    (bs : Bytes) (s : Utf8Scanner) (up_to at : ℕ)
    → (decode s up_to at bs ≡ valid)
      ↔ ((t : Utf8Scanner) × (scan s bs ≡ ok t) × (at_boundary t ≡ true))
unfolding decode scan
decode-scan [] s up_to at = elim (Bool-cases (at_boundary s)) [
  | inl whole ↦ rw (whole, decode) (λ _. (s, refl, whole), λ _. refl)
  | inr open_scalar ↦
      rw (open_scalar, decode)
        (
          λ e. absurd cc,
          λ (t, e, h). let same : s ≡ t = cc in absurd (let b = ap at_boundary same in cc),
        )
]
decode-scan (b ∷ bs) s up_to at = elim (Result-cases (Utf8.push s b)) [
  | inl ((t, whole), pushed) ↦
      rw (pushed, decode) (decode-scan bs t (if whole then at + 1 else up_to) (at + 1))
  | inr (fault, refused) ↦ rw (refused, decode) (λ e. absurd cc, λ (t, e, h). absurd cc)
]

from_utf8-IsText : (prefix : Bytes) → (from_utf8 prefix ≡ valid) ↔ IsText prefix
unfolding from_utf8
from_utf8-IsText prefix =
    let whole = decode-scan prefix start 0 0 in
    let text = utf8_iff prefix in (λ e. text.0 (whole.0 e), λ t. whole.1 (text.1 t))

judged_lem :
    (prefix : Bytes) (r : Utf8Result)
    → length prefix < probe_prefix_max
    → (judged prefix r ≡ true) ↔ ((r ≡ valid) × (is_printable prefix ≡ true))
unfolding judged
judged_lem prefix valid h = (λ e. (refl, e), λ (e, p). p)
judged_lem prefix (cut_short up_to) h =
    let short : leb probe_prefix_max (length prefix) ≡ false = ground arith in
    rw short (λ e. absurd cc, λ (e, p). absurd cc)
judged_lem prefix invalid h = (λ e. absurd cc, λ (e, p). absurd cc)

behind_empty :
    (prefix : Bytes)
    → is_empty prefix ≡ false
    → is_structured_text_prefix prefix ≡ judged prefix (from_utf8 prefix)
unfolding is_structured_text_prefix
behind_empty prefix e = rw e refl

-- A byte that is not a C0 control character, or is one of the four of plain text.
abbrev pub IsPlain : ℕ → Type 0
IsPlain b = (0x20 ≤ b) ⊎ (b ≡ 9) ⊎ (b ≡ 10) ⊎ (b ≡ 12) ⊎ (b ≡ 13)

printable_byte :
    (b : ℕ) → ((leb 0x20 b || b == 9 || b == 10 || b == 12 || b == 13) ≡ true) ↔ IsPlain b
printable_byte b = ground arith

both_iff :
    {P Q : Type 0} (x y : Bool) → (x ≡ true) ↔ P → (y ≡ true) ↔ Q → ((x && y) ≡ true) ↔ (P × Q)
both_iff true y p q = (λ e. (p.0 refl, q.0 e), λ (a, b). q.1 b)
both_iff false y p q = (λ e. absurd cc, λ (a, b). p.1 a)

is_printable-IsPlain : (bs : Bytes) → (is_printable bs ≡ true) ↔ All IsPlain bs
unfolding is_printable
is_printable-IsPlain [] = (λ _. tt, λ _. refl)
is_printable-IsPlain (b ∷ bs) =
    both_iff _ (is_printable bs) (printable_byte b) (is_printable-IsPlain bs)

-- A stream of fewer than 512 bytes probes as structured text exactly when it is not empty, is the UTF-8
-- encoding of Unicode scalar values, and has none of the characters below 0x20 but tab, line feed,
-- form feed and carriage return.
pub IsText-probe :
    (prefix : Bytes)
    → length prefix < probe_prefix_max
    → (is_structured_text_prefix prefix ≡ true)
      ↔ ((prefix ≢ []) × IsText prefix × All IsPlain prefix)
unfolding is_structured_text_prefix
IsText-probe [] h = (λ e. absurd cc, λ (n, t, p). absurd (n refl))
IsText-probe (b ∷ bs) h =
    let prefix = b ∷ bs in
    let judge = judged_lem prefix (from_utf8 prefix) h in
    let text = from_utf8-IsText prefix in
    let plain = is_printable-IsPlain prefix in
    rw (behind_empty prefix refl) (
      λ e. let (v, p) = judge.0 e in (λ n. cc, text.0 v, plain.0 p),
      λ (n, t, p). judge.1 (text.1 t, plain.1 p),
    )
