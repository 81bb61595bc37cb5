-- ===== src/MediaType/Fuel.antt =====
-- The loop over the parameters ends: each round consumes some of the text.
use async_chunker.Errors.{MediaTypeError}
use async_chunker.MediaType.Cursor.{
  R, is_token_byte, is_space, Cursor, run, skip_whitespace, expect, expect_in, Taken, token, quoted,
  value, value_in,
}
use async_chunker.MediaType.Parse.{add, Read, read_parameter, read_parameters}
use async_chunker.MediaType.{Parameter, to_ascii_lowercase}
use async_chunker.Prelude.{
  ℕ, zero, suc, ◌+◌, ◌≤◌, ◌<◌, ◌≡◌, ◌≢◌, ◌⊎◌, inl, inr, refl, Bool, true, false, List, [], ◌∷◌,
  ◌++◌, arith, ◌==◌, if_cases, if◌then◌else◌, Bytes, length, is_empty,
}
use async_chunker.Result.{ok, err, ◌>>=◌, Result-cases, Ensures-ok, Ensures, Ensures-bind}

run-length : (p : ℕ → Bool) (xs : Bytes) → length (run p xs).0 + length (run p xs).1 ≡ length xs
run-length p [] = refl
run-length p (x ∷ xs) = ground (arith, run-length p xs)

-- What a cursor has left is at most n bytes; so it is behind a part of the text.
abbrev Left : ℕ → Cursor → Type 0
Left n c = length c.rest ≤ n

abbrev Behind : ℕ → Taken → Type 0
Behind n t = Left n t.cursor

skip_whitespace-Left : (c : Cursor) → length (skip_whitespace c).rest ≤ length c.rest
unfolding skip_whitespace
skip_whitespace-Left c = omega (arith, run-length is_space c.rest)

token-shrinks : (c : Cursor) (n : ℕ) → length c.rest ≤ suc n → Ensures (Behind n) (token c)
unfolding token
token-shrinks c n h =
    if_cases (Ensures (Behind n)) (is_empty (run is_token_byte c.rest).0) _ _ (λ nothing. tt)
      (λ something.
        shorter (run is_token_byte c.rest).0 (run is_token_byte c.rest).1
          (run-length is_token_byte c.rest) something)
  where
    shorter :
        (xs ys : Bytes)
        → length xs + length ys ≡ length c.rest
        → is_empty xs ≡ false
        → length ys ≤ n
    shorter [] ys e f = ground arith
    shorter (x ∷ xs) ys e f = omega arith

token-Left : (c : Cursor) (n : ℕ) → length c.rest ≤ n → Ensures (Behind n) (token c)
unfolding token
token-Left c n h =
    if_cases (Ensures (Behind n)) (is_empty (run is_token_byte c.rest).0) _ _ (λ nothing. tt)
      (λ something. omega (arith, run-length is_token_byte c.rest))

expect_in-Left :
    (xs : Bytes) (offset b n : ℕ) → length xs ≤ n → Ensures (Left n) (expect_in xs offset b)
unfolding expect_in
expect_in-Left [] offset b n h = tt
expect_in-Left (x ∷ xs) offset b n h =
    if_cases (Ensures (Left n)) (x == b) _ _ (λ found. omega arith) (λ other. tt)

quoted-Left :
    (start : ℕ) (xs : Bytes) (offset : ℕ) (before : Bytes) (n : ℕ)
    → length xs ≤ n
    → Ensures (Behind n) (quoted start xs offset before)
unfolding quoted
quoted-Left start [] offset before n h = tt
quoted-Left start (x ∷ []) offset before n h =
    if_cases (Ensures (Behind n)) (x == b'"') _ _ (λ quote. omega arith)
      (λ other. if_cases (Ensures (Behind n)) (x == b'\\') _ _ (λ slash. tt) (λ plain. tt))
quoted-Left start (x ∷ y ∷ xs) offset before n h =
    if_cases (Ensures (Behind n)) (x == b'"') _ _ (λ quote. omega arith)
      (λ other.
        if_cases (Ensures (Behind n)) (x == b'\\') _ _
          (λ slash. quoted-Left start xs (offset + 2) (before ++ y ∷ []) n (omega arith))
          (λ plain. quoted-Left start (y ∷ xs) (offset + 1) (before ++ x ∷ []) n (omega arith)))

value_in-Left :
    (xs : Bytes) (offset n : ℕ) → length xs ≤ n → Ensures (Behind n) (value_in xs offset)
unfolding value_in
value_in-Left [] offset n h = token-Left (record { rest = []; offset = offset }) n h
value_in-Left (x ∷ xs) offset n h =
    if_cases (Ensures (Behind n)) (x == b'"') _ _
      (λ quote. quoted-Left (offset + 1) xs (offset + 1) [] n (omega arith))
      (λ other. token-Left (record { rest = x ∷ xs; offset = offset }) n h)

anyway : {A : Type 0} (r : R A) → Ensures (λ _. Unit {0}) r
anyway (ok a) = tt
anyway (err e) = tt

abbrev Next : ℕ → Read → Type 0
Next n r = length r.cursor.rest ≤ n

-- A round consumes a byte at least.
read_parameter-shrinks :
    (c : Cursor) (ps : List Parameter) (n : ℕ)
    → length c.rest ≤ suc n
    → Ensures (Next n) (read_parameter c ps)
unfolding read_parameter expect value
read_parameter-shrinks c ps n h =
    let start = skip_whitespace c in
    Ensures-bind (Behind n) (Next n) (token start) _
      (token-shrinks start n (omega (arith, skip_whitespace-Left c)))
      (λ name a.
        Ensures-bind (Left n) (Next n) (expect_in name.cursor.rest name.cursor.offset b'=') _
          (expect_in-Left name.cursor.rest name.cursor.offset b'=' n a)
          (λ equals b.
            Ensures-bind (Behind n) (Next n) (value_in equals.rest equals.offset) _
              (value_in-Left equals.rest equals.offset n b)
              (λ v d.
                Ensures-bind (λ _. Unit) (Next n) (add ps (to_ascii_lowercase name.text) v.text) _
                  (anyway (add ps (to_ascii_lowercase name.text) v.text))
                  (λ next _. omega (arith, skip_whitespace-Left v.cursor)))))

expect_in-shrinks :
    (xs : Bytes) (offset b : ℕ) → Ensures (λ c. length c.rest < length xs) (expect_in xs offset b)
unfolding expect_in
expect_in-shrinks [] offset b = tt
expect_in-shrinks (x ∷ xs) offset b =
    if_cases (Ensures (λ (c : Cursor). length c.rest < suc (length xs))) (x == b) _ _
      (λ found. omega arith) (λ other. tt)

-- The loop of `parse_parameters` as the source writes it, with nothing to bound it: that it ends from a cursor,
-- behind the parameters read before, with a result.
pub data Ends : Cursor → List Parameter → R (List Parameter) → Type 0 where
  unread :
      {c : Cursor} {ps : List Parameter} (e : MediaTypeError)
      → read_parameter c ps ≡ err e
      → Ends c ps (err e)
  last :
      {c : Cursor} {ps : List Parameter} (r : Read)
      → read_parameter c ps ≡ ok r
      → r.cursor.rest ≡ []
      → Ends c ps (ok r.parameters)
  unseparated :
      {c : Cursor} {ps : List Parameter} (r : Read) (e : MediaTypeError)
      → read_parameter c ps ≡ ok r
      → r.cursor.rest ≢ []
      → expect r.cursor b';' ≡ err e
      → Ends c ps (err e)
  another :
      {c : Cursor} {ps : List Parameter} (r : Read) (next : Cursor) (result : R (List Parameter))
      → read_parameter c ps ≡ ok r
      → r.cursor.rest ≢ []
      → expect r.cursor b';' ≡ ok next
      → Ends next r.parameters result
      → Ends c ps result

empty_or_not :
    (xs : Bytes) → ((xs ≡ []) × (is_empty xs ≡ true)) ⊎ ((xs ≢ []) × (is_empty xs ≡ false))
empty_or_not [] = inl (refl, refl)
empty_or_not (x ∷ xs) = inr (λ e. cc, refl)

-- Behind a parameter.
behind_parameter :
    (fuel : ℕ) (c : Cursor) (ps : List Parameter) (r : Read)
    → read_parameter c ps ≡ ok r
    → ((d : Cursor)
        → length d.rest < length r.cursor.rest
        → Ends d r.parameters (read_parameters fuel d r.parameters))
    → Ends c ps (
        if is_empty r.cursor.rest
        then ok r.parameters
        else (expect r.cursor b';' >>= λ next. read_parameters fuel next r.parameters))
unfolding expect
behind_parameter fuel c ps r e k = elim (empty_or_not (r.cursor.rest)) [
  | inl (nothing_left, empty) ↦ rw empty (last r e nothing_left)
  | inr (more, full) ↦ rw full (elim (Result-cases (expect r.cursor b';')) [
    | inl (next, there) ↦ rw there (
        another r next _ e more there (
          k next (
            Ensures-ok (λ (d : Cursor). length d.rest < length r.cursor.rest) (expect r.cursor b';')
              next there (expect_in-shrinks r.cursor.rest r.cursor.offset b';'))))
    | inr (fault, other) ↦ rw other (unseparated r fault e more other)
  ])
]

-- The loop over the parameters ends, whatever the text, and `read_parameters` gives the result it ends with, as soon
-- as its fuel exceeds the length of the text that is left. `parse_parameters` gives that much.
pub read_parameters-Ends :
    (fuel : ℕ) (c : Cursor) (ps : List Parameter)
    → length c.rest < fuel
    → Ends c ps (read_parameters fuel c ps)
unfolding read_parameters
read_parameters-Ends zero c ps h = absurd (omega arith)
read_parameters-Ends (suc fuel) c ps h = elim (Result-cases (read_parameter c ps)) [
  | inl (r, e) ↦ rw e (
      behind_parameter fuel c ps r e (λ d j. read_parameters-Ends fuel d r.parameters (
        omega (
          arith,
          j,
          Ensures-ok (Next fuel) (read_parameter c ps) r e
              (read_parameter-shrinks c ps fuel (omega (arith, h))),
        ))))
  | inr (fault, e) ↦ rw e (unread fault e)
]
