-- ===== src/MediaType/Tokens.antt =====
-- What the cursor reads back of a rendered parameter.
use async_chunker.MediaType.Cursor.{
  R, is_token_byte, is_token, is_space, all_bytes, run, skip_whitespace, Taken, token, quoted,
  value, value_in,
}
use async_chunker.MediaType.Display.{escaped, value_text}
use async_chunker.Prelude.{
  ℕ, suc, ◌+◌, ◌≡◌, refl, sym, ap, ◌∙◌, Bool, true, false, ◌||◌, [], ◌∷◌, ◌++◌, arith, ◌==◌, Bytes,
  length, length-append, is_empty, append_assoc, append-nil, Bool-cases, inl, inr, ==_iff,
}
use async_chunker.Result.{ok}

-- A byte that passes a test is none that fails it.
pub differs : (p : ℕ → Bool) (c b : ℕ) → p c ≡ false → p b ≡ true → (b == c) ≡ false
differs p c b f t = elim (Bool-cases (b == c)) [
  | inr other ↦ other
  | inl same ↦
      let e : b ≡ c = (==_iff b c).0 same in
      let clash : true ≡ false = sym t ∙ ap p e ∙ f in ground arith
]

-- The text does not begin with such a byte.
abbrev pub Stops : (ℕ → Bool) → Bytes → Type 0
Stops p [] = Unit
Stops p (b ∷ bs) = p b ≡ false

pub run-all :
    (p : ℕ → Bool) (xs ys : Bytes)
    → all_bytes p xs ≡ true
    → Stops p ys
    → run p (xs ++ ys) ≡ (xs, ys)
run-all p [] [] a s = refl
run-all p [] (y ∷ ys) a s = rw s
run-all p (x ∷ xs) ys a s =
    let now : p x ≡ true = ground arith in
    let later = run-all p xs ys (ground arith) s in rw (now, later)

pub skip-Stops :
    (rest : Bytes) (offset : ℕ)
    → Stops is_space rest
    → skip_whitespace (record { rest = rest; offset = offset })
      ≡ record { rest = rest; offset = offset }
unfolding skip_whitespace
skip-Stops rest offset s =
    let nothing = run-all is_space [] rest refl s in
    rw nothing (ap (λ (n : ℕ). record { rest = rest; offset = n }) (omega arith))

-- A token is read whole.
pub token-all :
    (text rest : Bytes) (offset : ℕ)
    → is_token text ≡ true
    → Stops is_token_byte rest
    → token (record { rest = text ++ rest; offset = offset })
      ≡ ok (record { text = text; cursor = record { rest = rest; offset = offset + length text } })
unfolding token is_token
token-all text rest offset t s =
    let whole = run-all is_token_byte text rest (ground arith) s in
    let some_text : is_empty text ≡ false = ground arith in rw (whole, some_text)

-- A value read, and what follows it.
abbrev read : Bytes → Bytes → ℕ → R Taken
read text rest offset =
    ok (record { text = text; cursor = record { rest = rest; offset = offset } })

same_read : (t u rest : Bytes) (m n : ℕ) → t ≡ u → m ≡ n → read t rest m ≡ read u rest n
same_read t u rest m n e f = rw (e, f) refl

quoted-end :
    (start : ℕ) (rest : Bytes) (offset : ℕ) (before : Bytes)
    → quoted start (b'"' ∷ rest) offset before ≡ read before rest (offset + 1)
unfolding quoted
quoted-end start [] offset before = refl
quoted-end start (c ∷ rest) offset before = refl

quoted-escape :
    (start b : ℕ) (rest : Bytes) (offset : ℕ) (before : Bytes)
    → quoted start (b'\\' ∷ b ∷ rest) offset before
      ≡ quoted start rest (offset + 2) (before ++ b ∷ [])
unfolding quoted
quoted-escape start b rest offset before = refl

quoted-plain :
    (start b : ℕ) (rest : Bytes) (offset : ℕ) (before : Bytes)
    → (b == b'"' || b == b'\\') ≡ false
    → quoted start (b ∷ rest) offset before ≡ quoted start rest (offset + 1) (before ++ b ∷ [])
unfolding quoted
quoted-plain start b [] offset before h = ground arith
quoted-plain start b (c ∷ rest) offset before h =
    let quote : (b == b'"') ≡ false = ground arith in
    let slash : (b == b'\\') ≡ false = ground arith in rw (quote, slash) refl

-- A quoted string is unescaped to the value that was escaped.
quoted-escaped :
    (start : ℕ) (value rest : Bytes) (offset : ℕ) (before : Bytes)
    → quoted start (escaped value ++ b'"' ∷ rest) offset before
      ≡ read (before ++ value) rest (offset + length (escaped value) + 1)
unfolding escaped
quoted-escaped start [] rest offset before =
    quoted-end start rest offset before
    ∙ same_read before (before ++ []) rest (offset + 1) (offset + 0 + 1) (sym (append-nil before))
        (omega arith)
quoted-escaped start (b ∷ bs) rest offset before =
    let longer = append_assoc before (b ∷ []) bs in
    elim (Bool-cases (b == b'"' || b == b'\\')) [
      | inl special ↦ rw special (
          quoted-escape start b (escaped bs ++ b'"' ∷ rest) offset before
          ∙ quoted-escaped start bs rest (offset + 2) (before ++ b ∷ [])
          ∙ same_read ((before ++ b ∷ []) ++ bs) (before ++ b ∷ bs) rest
              (offset + 2 + length (escaped bs) + 1) (offset + suc (suc (length (escaped bs))) + 1)
              longer (omega arith))
      | inr ordinary ↦ rw ordinary (
          quoted-plain start b (escaped bs ++ b'"' ∷ rest) offset before ordinary
          ∙ quoted-escaped start bs rest (offset + 1) (before ++ b ∷ [])
          ∙ same_read ((before ++ b ∷ []) ++ bs) (before ++ b ∷ bs) rest
              (offset + 1 + length (escaped bs) + 1) (offset + suc (length (escaped bs)) + 1) longer
              (omega arith))
    ]

token-value :
    (v rest : Bytes) (offset : ℕ)
    → is_token v ≡ true
    → Stops is_token_byte rest
    → value_in (v ++ rest) offset ≡ read v rest (offset + length v)
unfolding value_in is_token is_token_byte
token-value [] rest offset t s = ground arith
token-value (b ∷ bs) rest offset t s =
    let unquoted : (b == b'"') ≡ false = differs is_token_byte b'"' b refl (ground arith) in
    rw unquoted (token-all (b ∷ bs) rest offset t s)

-- A rendered value is read back.
pub value-text :
    (v rest : Bytes) (offset : ℕ)
    → Stops is_token_byte rest
    → value (record { rest = value_text v ++ rest; offset = offset })
      ≡ read v rest (offset + length (value_text v))
unfolding value value_text
value-text v rest offset s = elim (Bool-cases (is_token v)) [
  | inl plain ↦ rw plain (token-value v rest offset plain s)
  | inr other ↦ rw other (
      rw (append_assoc (escaped v) (b'"' ∷ []) rest) (
        quoted-escaped (offset + 1) v rest (offset + 1) []
        ∙ same_read v v rest (offset + 1 + length (escaped v) + 1)
            (offset + suc (length (escaped v ++ b'"' ∷ []))) refl
            (omega (arith, length-append (escaped v) (b'"' ∷ [])))))
]
