-- ===== src/Zip/Descriptor/Scan.antt =====
-- The scan for the descriptor of a member of unknown size loses no byte.
use mathlib.Core.Path.{subst}
use async_chunker.Prelude.Text.{bytes_eq, bytes_eq_iff}
use async_chunker.Prelude.{
  ℕ, zero, suc, ◌+◌, ◌%◌, ◌≤◌, ◌<◌, ◌≡◌, refl, sym, ap, ◌∙◌, true, not, List, [], ◌∷◌, ◌++◌, arith,
  Bytes, ltb, ◌==◌, if_cases, length, take, drop, set, length-set, get_or, ◌⊎◌, inl, inr,
  length-append, length-take, length-drop,
}
use async_chunker.Result.{ok, err, Ensures, Ensures-weaken}
use async_chunker.Zip.Descriptor.{
  closed, close_member, rescan, scan, behind_data, copied_within, put, shape_of, body_at,
  looks_like_descriptor,
}
use async_chunker.Zip.Headers.{data_descriptor}
use async_chunker.Zip.Numbers.{W, MemberSizes, check}
use async_chunker.Zip.State.{
  Walker, Step, Event, member_data, ScanState, signature, data_scan, body_len, compressed,
  uncompressed, crc, fixed_max,
}

-- The bytes reported as data.
abbrev pub data_of : List Event → Bytes
data_of [] = []
data_of (member_data b ∷ es) = b ∷ data_of es
data_of (_ ∷ es) = data_of es

-- The scan goes on: the held bytes were reported as data, but for those pending.
pub record GoesOn (held : Bytes) (scan : ScanState) (r : Step) : Type 0 where
  pub next : ScanState
  pub state : r.walker.state ≡ data_scan next
  pub split : data_of r.events ++ take next.pending r.walker.fixed ≡ held
  pub consumed : next.consumed ≡ scan.consumed + length (data_of r.events)
  pub pending : next.pending < 4 + body_len (shape_of scan)
  pub method : next.method ≡ scan.method
  pub zip64 : next.zip64 ≡ scan.zip64

-- The scan has found the descriptor: it follows the data in the held bytes, and claims their number.
pub record Finds (held : Bytes) (scan : ScanState) (r : Step) : Type 0 where
  pub body : Bytes
  pub state : r.walker.state ≡ signature 0
  pub split : data_of r.events ++ data_descriptor ++ body ≡ held
  pub length_body : length body ≡ body_len (shape_of scan)
  pub claim : compressed (shape_of scan) body ≡ scan.consumed + length (data_of r.events)

abbrev pub Scans : Bytes → ScanState → Step → Type 0
Scans held scan r = GoesOn held scan r ⊎ Finds held scan r

-- One byte more of data in front.
behind_data-Scans :
    (b : ℕ) (held : Bytes) (d : ScanState) (r : W Step)
    → Ensures (Scans held (record d { consumed = d.consumed + 1 })) r
    → Ensures (Scans (b ∷ held) d) (behind_data b r)
behind_data-Scans b held d (ok r) (inl g) = inl (record {
  next = g.next;
  state = g.state;
  split = ap (λ (bs : Bytes). b ∷ bs) g.split;
  consumed = omega (arith, g.consumed);
  pending = g.pending;
  method = g.method;
  zip64 = g.zip64;
})
behind_data-Scans b held d (ok r) (inr f) = inr (record {
  body = f.body;
  state = f.state;
  split = ap (λ (bs : Bytes). b ∷ bs) f.split;
  length_body = f.length_body;
  claim = f.claim ∙ omega arith;
})
behind_data-Scans b held d (err fault) h = tt

closed-Finds :
    (w : Walker) (d : ScanState) (held body : Bytes) (claims : MemberSizes) (c : ℕ)
    (r : W (Unit {0}))
    → data_descriptor ++ body ≡ held
    → length body ≡ body_len (shape_of d)
    → compressed (shape_of d) body ≡ d.consumed
    → Ensures (Scans held d) (closed w claims c r)
unfolding closed
closed-Finds w d held body claims c (ok _) s l k =
    inr (record { body = body; state = refl; split = s; length_body = l; claim = k ∙ omega arith })
closed-Finds w d held body claims c (err fault) s l k = tt

length-copied_within :
    (w : Walker) (left : ℕ)
    → suc left ≤ length w.fixed
    → length (copied_within w left).fixed ≡ length w.fixed
length-copied_within w left h =
    length-append (take left (drop 1 w.fixed)) (drop left w.fixed)
    ∙ omega
        (arith, length-take left (drop 1 w.fixed), length-drop 1 w.fixed, length-drop left w.fixed)

take-take : (n : ℕ) (xs ys : Bytes) → n ≤ length xs → take n (take n xs ++ ys) ≡ take n xs
take-take zero xs ys h = refl
take-take (suc n) [] ys h = absurd (omega arith)
take-take (suc n) (x ∷ xs) ys h = ap (λ (bs : Bytes). x ∷ bs) (take-take n xs ys (omega arith))

take-split : (m n k : ℕ) (xs : Bytes) → k ≡ m + n → take m xs ++ take n (drop m xs) ≡ take k xs
take-split zero n k xs h = ap (λ (j : ℕ). take j xs) (omega arith)
take-split (suc m) n zero xs h = absurd (omega arith)
take-split (suc m) zero (suc k) [] h = refl
take-split (suc m) (suc n) (suc k) [] h = refl
take-split (suc m) n (suc k) (x ∷ xs) h =
    ap (λ (bs : Bytes). x ∷ bs) (take-split m n k xs (omega arith))

signed :
    (pending : ℕ) (fixed : Bytes)
    → looks_like_descriptor pending fixed ≡ true
    → 4 ≤ pending
    → take 4 fixed ≡ data_descriptor
signed pending fixed looks h =
    let matched : bytes_eq (take 4 fixed) data_descriptor ≡ true = ground arith in
    (bytes_eq_iff (take 4 fixed) data_descriptor).0 matched

-- The bytes pending after the first is dropped.
take-copied_within :
    (xs : Bytes) (left : ℕ)
    → suc left ≤ length xs
    → get_or xs 0 0 ∷ take left (take left (drop 1 xs) ++ drop left xs) ≡ take (suc left) xs
take-copied_within [] left h = absurd (omega arith)
take-copied_within (x ∷ xs) left h =
    ap (λ (bs : Bytes). x ∷ bs) (take-take left xs (drop left (x ∷ xs)) (omega arith))

rescan-Scans :
    (left : ℕ) (w : Walker) (d : ScanState)
    → left ≤ length w.fixed
    → left ≤ 4 + body_len (shape_of d)
    → Ensures (Scans (take left w.fixed) d) (rescan left w d)
unfolding rescan close_member
rescan-Scans zero w d h k = inl (record {
  next = record d { pending = 0 };
  state = refl;
  split = refl;
  consumed = omega arith;
  pending = ground arith;
  method = refl;
  zip64 = refl;
})
rescan-Scans (suc left) w d h k =
    let held = take (suc left) w.fixed in
    let next = record d { consumed = d.consumed + 1 } in
    let shape = shape_of d in
    let body = body_at 4 shape w.fixed in
    let moved = copied_within w left in
    let kept = length-copied_within w left h in
    let rest : Ensures (Scans held d) (behind_data (get_or w.fixed 0 0) (rescan left moved next)) =
      subst
        (λ (t : Bytes).
          Ensures (Scans t d) (behind_data (get_or w.fixed 0 0) (rescan left moved next)))
        (take-copied_within w.fixed left h)
        (behind_data-Scans (get_or w.fixed 0 0) (take left moved.fixed) d (rescan left moved next)
          (rescan-Scans left moved next (omega (arith, kept)) (omega arith))) in
    if_cases (Ensures (Scans held d)) (not (looks_like_descriptor (suc left) w.fixed)) _ _
      (λ other. rest)
      (λ looks.
        if_cases (Ensures (Scans held d)) (ltb (suc left) (4 + body_len shape)) _ _
          (λ short. inl (record {
            next = record d { pending = suc left };
            state = refl;
            split = refl;
            consumed = omega arith;
            pending = ground arith;
            method = refl;
            zip64 = refl;
          }))
          (λ whole.
            let full : suc left ≡ 4 + body_len shape = ground arith in
            let sig = signed (suc left) w.fixed (ground arith) (omega arith) in
            if_cases (Ensures (Scans held d)) (compressed shape body == d.consumed) _ _
              (λ fits.
                closed-Finds w d held body
                  (record { compressed = d.consumed; uncompressed = uncompressed shape body })
                  (crc body) _
                  (ap (λ (t : Bytes). t ++ body) (sym sig)
                    ∙ take-split 4 (body_len shape) (suc left) w.fixed full)
                  (length-take (body_len shape) (drop 4 w.fixed)
                    (omega (arith, length-drop 4 w.fixed)))
                  (ground arith))
              (λ false_signature. rest)))

take-set :
    (n : ℕ) (xs : Bytes) (b : ℕ) → n < length xs → take (n + 1) (set xs n b) ≡ take n xs ++ b ∷ []
take-set n [] b h = absurd (omega arith)
take-set zero (x ∷ xs) b h = refl
take-set (suc n) (x ∷ xs) b h =
    ap (λ (k : ℕ). take k (set (x ∷ xs) (suc n) b)) (plus_one n)
    ∙ ap (λ (bs : Bytes). x ∷ bs) (take-set n xs b (omega arith))
  where
    plus_one : (n : ℕ) → suc n + 1 ≡ suc (n + 1)
    plus_one n = omega arith

-- One byte of a member of unknown size, with a place for it in the buffer: either the scan goes on, and the
-- bytes reported as data together with those still pending are the bytes that were pending and the new one,
-- in order; or it ends the member, and they are the data, the descriptor's signature and its body, which
-- claims exactly as many bytes as were reported in all; or the sizes claimed there are rejected.
pub scan_loses_nothing :
    (w : Walker) (d : ScanState) (byte : ℕ)
    → length w.fixed ≡ fixed_max
    → d.pending < 4 + body_len (shape_of d)
    → Ensures (Scans (take d.pending w.fixed ++ byte % 256 ∷ []) d) (scan w d byte)
unfolding scan
scan_loses_nothing w d byte l h =
    let v = put w d.pending byte in
    let room : 4 + body_len (shape_of d) ≤ 24 = ground arith in
    let held = take-set d.pending w.fixed (byte % 256) (omega (arith, l)) in
    let kept = length-set w.fixed d.pending (byte % 256) in
    subst (λ (t : Bytes). Ensures (Scans t d) (rescan (d.pending + 1) v d)) held
      (rescan-Scans (d.pending + 1) v d (omega (arith, kept, l)) (omega arith))

behind_data-length :
    (n b : ℕ) (r : W Step)
    → Ensures (λ r. length r.walker.fixed ≡ n) r
    → Ensures (λ r. length r.walker.fixed ≡ n) (behind_data b r)
behind_data-length n b (ok r) h = h
behind_data-length n b (err fault) h = tt

closed-length :
    (w : Walker) (claims : MemberSizes) (c : ℕ) (r : W (Unit {0}))
    → Ensures (λ r. length r.walker.fixed ≡ length w.fixed) (closed w claims c r)
unfolding closed
closed-length w claims c (ok _) = refl
closed-length w claims c (err fault) = tt

rescan-length :
    (left : ℕ) (w : Walker) (d : ScanState) (n : ℕ)
    → left ≤ n
    → length w.fixed ≡ n
    → Ensures (λ r. length r.walker.fixed ≡ n) (rescan left w d)
unfolding rescan close_member
rescan-length zero w d n h l = l
rescan-length (suc left) w d n h l =
    let next = record d { consumed = d.consumed + 1 } in
    let shape = shape_of d in
    let body = body_at 4 shape w.fixed in
    let moved = copied_within w left in
    let claims : MemberSizes = record {
      compressed = d.consumed;
      uncompressed = uncompressed shape body;
    } in
    let kept = length-copied_within w left (omega (arith, l)) in
    let rest =
      behind_data-length n (get_or w.fixed 0 0) (rescan left moved next)
        (rescan-length left moved next n (omega arith) (kept ∙ l)) in
    if_cases (Ensures (λ (r : Step). length r.walker.fixed ≡ n))
      (not (looks_like_descriptor (suc left) w.fixed)) _ _ (λ other. rest)
      (λ looks.
        if_cases (Ensures (λ (r : Step). length r.walker.fixed ≡ n))
          (ltb (suc left) (4 + body_len shape)) _ _ (λ short. l)
          (λ whole.
            if_cases (Ensures (λ (r : Step). length r.walker.fixed ≡ n))
              (compressed shape body == d.consumed) _ _
              (λ fits.
                Ensures-weaken (λ r. length r.walker.fixed ≡ length w.fixed)
                  (λ r. length r.walker.fixed ≡ n)
                  (closed w claims (crc body) (check claims d.method)) (λ r k. k ∙ l)
                  (closed-length w claims (crc body) (check claims d.method)))
              (λ false_signature. rest)))

-- The buffer keeps its length.
pub scan-length :
    (w : Walker) (d : ScanState) (byte : ℕ)
    → length w.fixed ≡ fixed_max
    → d.pending < 4 + body_len (shape_of d)
    → Ensures (λ r. length r.walker.fixed ≡ fixed_max) (scan w d byte)
unfolding scan
scan-length w d byte l h =
    let room : 4 + body_len (shape_of d) ≤ 24 = ground arith in
    rescan-length (d.pending + 1) (put w d.pending byte) d fixed_max (omega arith)
      (length-set w.fixed d.pending (byte % 256) ∙ l)
