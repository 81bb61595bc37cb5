-- ===== src/Utf8/Scalars.antt =====
-- Unicode scalar values and their UTF-8 encoding: the reference that the scanner is held to. It is
-- stated by code points, not by the byte ranges that the scanner tests.
pub mod Prefix
use async_chunker.Prelude.{
  ℕ, ◌+◌, ◌*◌, ◌/◌, ◌%◌, ◌^◌, ◌≤◌, ◌<◌, ◌≡◌, refl, sym, ap, ◌∙◌, ◌⊎◌, List, [], ◌∷◌, ◌++◌, Bytes,
  All, All-append, append_assoc, append-nil, ltb, if◌then◌else◌,
}

-- A code point that is no surrogate.
abbrev pub IsScalar : ℕ → Type 0
IsScalar n = (n < 0x110000) × ((n < 0xd800) ⊎ (0xe000 ≤ n))

unfoldable pub encode : ℕ → Bytes
encode n =
    if ltb n 0x80
    then n ∷ []
    else if ltb n 0x800
    then (0xc0 + n / 64) ∷ (0x80 + n % 64) ∷ []
    else if ltb n 0x10000
    then (0xe0 + n / 64 / 64) ∷ (0x80 + n / 64 % 64) ∷ (0x80 + n % 64) ∷ []
    else (0xf0 + n / 64 / 64 / 64)
      ∷ (0x80 + n / 64 / 64 % 64)
      ∷ (0x80 + n / 64 % 64)
      ∷ (0x80 + n % 64)
      ∷ []

unfoldable pub encode_all : List ℕ → Bytes
unfolding encode
encode_all [] = []
encode_all (n ∷ ns) = encode n ++ encode_all ns

-- The bytes are those of a list of scalar values.
pub record IsText (bs : Bytes) : Type 0 where
  pub scalars : List ℕ
  pub valid : All IsScalar scalars
  pub encoded : bs ≡ encode_all scalars

encode_all-append : (ms ns : List ℕ) → encode_all (ms ++ ns) ≡ encode_all ms ++ encode_all ns
unfolding encode_all
encode_all-append [] ns = refl
encode_all-append (m ∷ ms) ns =
    ap (◌++◌ (encode m)) (encode_all-append ms ns)
    ∙ sym (append_assoc (encode m) (encode_all ms) (encode_all ns))

pub IsText-nil : IsText []
unfolding encode_all
IsText-nil = record { scalars = []; valid = tt; encoded = refl }

pub IsText-scalar : (n : ℕ) → IsScalar n → IsText (encode n)
unfolding encode_all
IsText-scalar n v = record {
  scalars = n ∷ [];
  valid = (v, tt);
  encoded = sym (append-nil (encode n));
}

pub IsText-append : (xs ys : Bytes) → IsText xs → IsText ys → IsText (xs ++ ys)
IsText-append xs ys a b = record {
  scalars = a.scalars ++ b.scalars;
  valid = All-append IsScalar a.scalars b.scalars a.valid b.valid;
  encoded =
      ap (λ (t : Bytes). t ++ ys) a.encoded
      ∙ ap (◌++◌ (encode_all a.scalars)) b.encoded
      ∙ sym (encode_all-append a.scalars b.scalars);
}
