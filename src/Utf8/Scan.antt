-- ===== src/Utf8/Scan.antt =====
-- The scanner over many bytes accepts exactly the encodings of scalar values.
use async_chunker.Prelude.{
  ℕ, ◌+◌, ◌/◌, ◌%◌, ◌≤◌, ◌<◌, ◌≡◌, ◌↔◌, refl, ap, ◌∙◌, List, [], ◌∷◌, ◌++◌, Bool, true, false,
  arith, Bytes, All, append_assoc, if_cases, ltb,
}
use mathlib.Core.Path.{subst}
use async_chunker.Result.{Result, ok, ◌>>=◌, Ensures, Ensures-bind, Ensures-ok, Ensures-weaken}
use async_chunker.Utf8.Scalars.Prefix.{
  Prefix, nothing_open, Row3', Row4', Tail, Reads, Read, push-Reads,
}
use async_chunker.Utf8.Scalars.{IsScalar, encode, encode_all, IsText, IsText-nil, IsText-append}
use async_chunker.Utf8.{Utf8Scanner, Utf8Fault, start, push, begin, at_boundary}

-- `push` on each byte, up to the first fault.
unfoldable pub scan : Utf8Scanner → Bytes → Result Utf8Fault Utf8Scanner
scan s [] = ok s
scan s (b ∷ bs) = do r ← push s b; scan r.0 bs

-- If the scanner ends between scalars, the bytes were text.
abbrev Finished : Bytes → Utf8Scanner → Type 0
Finished bs t = t.remaining ≡ 0 → IsText bs

scan-Finished :
    (bs p : Bytes) (s : Utf8Scanner) → Prefix p s → Ensures (Finished (p ++ bs)) (scan s bs)
unfolding scan
scan-Finished [] p s h = λ e. rw (nothing_open p s h e) IsText-nil
scan-Finished (b ∷ bs) p s h =
    Ensures-bind (Read p b) (Finished (p ++ b ∷ bs)) (push s b) (λ r. scan r.0 bs)
      (push-Reads p s b h)
      (λ r read. go r.1 r.0 read (scan-Finished bs [] r.0) (scan-Finished bs (p ++ b ∷ []) r.0))
  where
    go :
        (done : Bool) (t : Utf8Scanner)
        → Reads p b t done
        → (Prefix [] t → Ensures (Finished bs) (scan t bs))
        → (Prefix (p ++ b ∷ []) t → Ensures (Finished ((p ++ b ∷ []) ++ bs)) (scan t bs))
        → Ensures (Finished (p ++ b ∷ bs)) (scan t bs)
    go true t (text, rest) fresh longer =
        Ensures-weaken (Finished bs) (Finished (p ++ b ∷ bs)) (scan t bs)
          (λ t' f e.
            subst IsText (append_assoc p (b ∷ []) bs) (IsText-append (p ++ b ∷ []) bs text (f e)))
          (fresh rest)
    go false t more fresh longer =
        subst (λ (x : Bytes). Ensures (Finished x) (scan t bs)) (append_assoc p (b ∷ []) bs)
          (longer more)

-- The state after a sequence of more than one byte.
abbrev shut : Utf8Scanner
shut = record { remaining = 0; next_lo = 0x80; next_hi = 0xbf }

scan-two :
    (s : Utf8Scanner) (b c : ℕ) (rest : Bytes)
    → s.remaining ≡ 0
    → 0xc2 ≤ b
    → b ≤ 0xdf
    → Tail c
    → scan s (b ∷ c ∷ rest) ≡ scan shut rest
unfolding scan push begin
scan-two s b c rest e h k t = ground arith

scan-three :
    (s : Utf8Scanner) (b c d : ℕ) (rest : Bytes)
    → s.remaining ≡ 0
    → Row3' b c
    → Tail d
    → scan s (b ∷ c ∷ d ∷ rest) ≡ scan shut rest
unfolding scan push begin
scan-three s b c d rest e r t = ground arith

scan-four :
    (s : Utf8Scanner) (b c d f : ℕ) (rest : Bytes)
    → s.remaining ≡ 0
    → Row4' b c
    → Tail d
    → Tail f
    → scan s (b ∷ c ∷ d ∷ f ∷ rest) ≡ scan shut rest
unfolding scan push begin
scan-four s b c d f rest e r t u = ground arith

abbrev Between : Utf8Scanner → Bytes → Bytes → Type 0
Between s bs rest = (t : Utf8Scanner) × (scan s (bs ++ rest) ≡ scan t rest) × (t.remaining ≡ 0)

scan-one :
    (s : Utf8Scanner) (b : ℕ) (rest : Bytes)
    → s.remaining ≡ 0
    → b < 0x80
    → scan s (b ∷ rest) ≡ scan s rest
unfolding scan push begin
scan-one s b rest e h = ground arith

three_row :
    (n : ℕ) → IsScalar n → 0x800 ≤ n → n < 0x10000 → Row3' (0xe0 + n / 64 / 64) (0x80 + n / 64 % 64)
three_row n v h i = ground arith

four_row :
    (n : ℕ) → n < 0x110000 → 0x10000 ≤ n → Row4' (0xf0 + n / 64 / 64 / 64) (0x80 + n / 64 / 64 % 64)
four_row n h i = ground arith

-- An encoded scalar value is read whole.
scan-encode :
    (n : ℕ) (s : Utf8Scanner) (rest : Bytes)
    → IsScalar n
    → s.remaining ≡ 0
    → Between s (encode n) rest
unfolding encode
scan-encode n s rest v e =
    let goal = λ (bs : Bytes). Between s bs rest in
    if_cases goal (ltb n 0x80) _ _ (λ h. (s, scan-one s n rest e (ground arith), e))
      (λ h.
        let low : 0x80 ≤ n = ground arith in
        if_cases goal (ltb n 0x800) _ _
          (λ i.
            let high : n < 0x800 = ground arith in
            (
              shut,
              scan-two s _ _ rest e (omega arith) (omega arith) (omega arith, omega arith),
              refl,
            ))
          (λ i.
            let low : 0x800 ≤ n = ground arith in
            if_cases goal (ltb n 0x10000) _ _
              (λ j. (
                shut,
                scan-three s _ _ _ rest e (three_row n v low (ground arith))
                    (omega arith, omega arith),
                refl,
              ))
              (λ j. (
                shut,
                scan-four s _ _ _ _ rest e (four_row n (v.0) (ground arith))
                    (omega arith, omega arith) (omega arith, omega arith),
                refl,
              ))))

scan-encode_all :
    (ns : List ℕ) (s : Utf8Scanner)
    → All IsScalar ns
    → s.remaining ≡ 0
    → (t : Utf8Scanner) × (scan s (encode_all ns) ≡ ok t) × (t.remaining ≡ 0)
unfolding scan encode_all
scan-encode_all [] s v e = (s, refl, e)
scan-encode_all (n ∷ ns) s (v, vs) e =
    let (t, step, shut_t) = scan-encode n s (encode_all ns) v e in
    let (u, rest, shut_u) = scan-encode_all ns t vs shut_t in (u, step ∙ rest, shut_u)

-- Scanned from the start, bytes are accepted and end between scalars exactly when they are the
-- UTF-8 encoding of some list of Unicode scalar values.
pub utf8_iff :
    (bs : Bytes) → ((t : Utf8Scanner) × (scan start bs ≡ ok t) × (at_boundary t ≡ true)) ↔ IsText bs
unfolding at_boundary
utf8_iff bs = (sound, complete)
  where
    sound : (t : Utf8Scanner) × (scan start bs ≡ ok t) × (at_boundary t ≡ true) → IsText bs
    sound (t, e, h) =
        Ensures-ok (Finished bs) (scan start bs) t e (scan-Finished bs [] start refl) (ground arith)

    complete : IsText bs → (t : Utf8Scanner) × (scan start bs ≡ ok t) × (at_boundary t ≡ true)
    complete x =
        let (t, e, h) = scan-encode_all x.scalars start x.valid refl in
        (t, ap (scan start) x.encoded ∙ e, ground arith)
