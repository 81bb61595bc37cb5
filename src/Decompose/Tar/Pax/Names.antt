-- ===== src/Decompose/Tar/Pax/Names.antt =====
-- What an extended header leaves pending is no longer than the header itself.
use async_chunker.Decompose.Fault.{OpaqueReason, malformed}
use mathlib.Core.Path.{subst}
use async_chunker.Decompose.Tar.Pax.{
  W, Overrides, position, strip_newline, set_key, apply_record, record_len, pax_round, pax_loop,
  sized, keep,
}
use async_chunker.Prelude.Text.{bytes_eq, codes}
use async_chunker.Prelude.Words.{parse_u64}
use async_chunker.Prelude.{
  ℕ, zero, suc, ◌+◌, ◌-◌, ◌≤◌, ◌≡◌, refl, Option, none, some, [], ◌∷◌, arith, Bytes, length, take,
  drop, length-drop, if_cases, List, ◌==◌,
}
use async_chunker.Result.{ok, err, Ensures, Ensures-bind, ok_or}

-- At most so many bytes, where there are any.
abbrev pub Fits : ℕ → Option Bytes → Type 0
Fits most none = Unit
Fits most (some bytes) = length bytes ≤ most

-- The pending path and link are at most so long, and nothing is buffered.
abbrev pub Pending : ℕ → Overrides → Type 0
Pending most o = Fits most o.path × Fits most o.link × (length o.buffer ≡ 0)

take_short : {A : Type 0} (n : ℕ) (xs : List A) → length (take n xs) ≤ length xs
take_short zero xs = omega arith
take_short (suc n) [] = omega arith
take_short (suc n) (x ∷ xs) = omega (arith, take_short n xs)

drop_short : {A : Type 0} (n : ℕ) (xs : List A) → length (drop n xs) ≤ length xs
drop_short n xs = omega (arith, length-drop n xs)

keep-Fits : (b n : ℕ) (o : Option Bytes) → Fits n o → Fits (suc n) (keep b o)
keep-Fits b n none h = tt
keep-Fits b n (some bytes) h = omega arith

strip_newline-Fits : (bs : Bytes) → Fits (length bs) (strip_newline bs)
unfolding strip_newline
strip_newline-Fits [] = tt
strip_newline-Fits (b ∷ []) = if_cases (Fits 1) (b == 10) _ _ (λ _. omega arith) (λ _. tt)
strip_newline-Fits (b ∷ c ∷ bs) =
    keep-Fits b (suc (length bs)) (strip_newline (c ∷ bs)) (strip_newline-Fits (c ∷ bs))

sized-Pending :
    (most : ℕ) (o : Overrides) (offset : ℕ) (size : Option ℕ)
    → Pending most o
    → Ensures (Pending most) (sized o offset size)
sized-Pending most o offset none h = tt
sized-Pending most o offset (some size) h = h

set_key-Pending :
    (most : ℕ) (o : Overrides) (offset : ℕ) (key value : Bytes)
    → length value ≤ most
    → Pending most o
    → Ensures (Pending most) (set_key o offset key value)
unfolding set_key
set_key-Pending most o offset key value le (path, link, buffer) =
    if_cases (Ensures (Pending most)) (bytes_eq key (codes "path")) _ _ (λ _. (le, link, buffer))
      (λ _.
        if_cases (Ensures (Pending most)) (bytes_eq key (codes "linkpath")) _ _
          (λ _. (path, le, buffer))
          (λ _.
            if_cases (Ensures (Pending most)) (bytes_eq key (codes "size")) _ _
              (λ _. sized-Pending most o offset (parse_u64 value) (path, link, buffer))
              (λ _. (path, link, buffer))))

-- A value there is satisfies what its place does.
ok_or-Ensures :
    {A : Type 0} (P : A → Type 0) (o : Option A) (fault : OpaqueReason)
    → ((a : A) → o ≡ some a → P a)
    → Ensures P (ok_or o fault)
ok_or-Ensures P none fault k = tt
ok_or-Ensures P (some a) fault k = k a refl

stripped_short : (bs body : Bytes) → strip_newline bs ≡ some body → length body ≤ length bs
stripped_short bs body e = subst (Fits (length bs)) e (strip_newline-Fits bs)

apply_record-Pending :
    (most : ℕ) (o : Overrides) (offset : ℕ) (bytes : Bytes)
    → length bytes ≤ most
    → Pending most o
    → Ensures (Pending most) (apply_record o offset bytes)
unfolding apply_record
apply_record-Pending most o offset bytes le h =
    Ensures-bind (λ (body : Bytes). length body ≤ most) (Pending most)
      (ok_or (strip_newline bytes) (malformed "pax record does not end in newline" offset)) _
      (ok_or-Ensures (λ (body : Bytes). length body ≤ most) (strip_newline bytes) _
        (λ body e. omega (arith, le, stripped_short bytes body e)))
      (λ body k.
        Ensures-bind (λ (eq : ℕ). Unit) (Pending most)
          (ok_or (position b'=' body) (malformed "pax record has no '='" offset)) _
          (ok_or-Ensures (λ (eq : ℕ). Unit) (position b'=' body) _ (λ eq e. tt))
          (λ eq _.
            set_key-Pending most o offset (take eq body) (drop (eq + 1) body)
              (omega (arith, k, drop_short (eq + 1) body)) h))

abbrev Left : ℕ → Overrides × Bytes → Type 0
Left most r = Pending most r.0 × (length r.1 ≤ most)

pax_round-Left :
    (most : ℕ) (o : Overrides) (offset : ℕ) (rest : Bytes)
    → length rest ≤ most
    → Pending most o
    → Ensures (Left most) (pax_round o offset rest)
unfolding pax_round
pax_round-Left most o offset rest le h =
    Ensures-bind (λ (r : ℕ × ℕ). Unit) (Left most) (record_len offset rest) _
      (anyway (record_len offset rest))
      (λ r _.
        let bytes = take (r.0 - r.1) (drop r.1 rest) in
        Ensures-bind (Pending most) (Left most) (apply_record o offset bytes) _
          (apply_record-Pending most o offset bytes
            (omega (arith, le, take_short (r.0 - r.1) (drop r.1 rest), drop_short r.1 rest)) h)
          (λ next k. (k, omega (arith, le, drop_short r.0 rest))))
  where
    anyway : (r : W (ℕ × ℕ)) → Ensures {0} (λ _. Unit) r
    anyway (ok n) = tt
    anyway (err fault) = tt

-- What the loop ends with, if the fuel suffices.
abbrev pub Finally : ℕ → Option (W Overrides) → Type 0
Finally most none = Unit
Finally most (some r) = Ensures (Pending most) r

pub pax_loop-Pending :
    (fuel most : ℕ) (o : Overrides) (offset : ℕ) (rest : Bytes)
    → length rest ≤ most
    → Pending most o
    → Finally most (pax_loop fuel o offset rest)
unfolding pax_loop
pax_loop-Pending fuel most o offset [] le h = h
pax_loop-Pending zero most o offset (b ∷ bs) le h = tt
pax_loop-Pending (suc fuel) most o offset (b ∷ bs) le h =
    after_round (pax_round o offset (b ∷ bs)) (λ v. pax_loop fuel v.0 offset v.1)
      (pax_round-Left most o offset (b ∷ bs) le h)
      (λ v k. pax_loop-Pending fuel most v.0 offset v.1 k.1 k.0)
  where
    after_round :
        (r : W (Overrides × Bytes)) (next : Overrides × Bytes → Option (W Overrides))
        → Ensures (Left most) r
        → ((v : Overrides × Bytes) → Left most v → Finally most (next v))
        → Finally most (elim r [ ok v ↦ next v | err fault ↦ some (err fault) ])
    after_round (ok v) next k f = f v k
    after_round (err fault) next k f = tt
