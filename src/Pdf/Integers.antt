-- ===== src/Pdf/Integers.antt =====
-- src/chunker/pdf/object.rs: `parse_int` against the value of a decimal numeral.
use async_chunker.Pdf.Object.{parse_int, accumulate, all_digits, shifted}
use async_chunker.Prelude.Words.{checked}
use async_chunker.Prelude.{
  ℕ, ◌+◌, ◌-◌, ◌*◌, ◌^◌, ◌<◌, ◌≤◌, ◌≡◌, ◌≢◌, ◌↔◌, true, some, [], ◌∷◌, arith, Bytes, ltb, inl, inr,
  Bool-cases,
}

-- The value of decimal digits behind a number.
abbrev pub decimal : ℕ → Bytes → ℕ
decimal acc [] = acc
decimal acc (b ∷ bs) = decimal (acc * 10 + (b - b'0')) bs

decimal-grows : (acc : ℕ) (bs : Bytes) → acc ≤ decimal acc bs
decimal-grows acc [] = omega arith
decimal-grows acc (b ∷ bs) = omega (arith, decimal-grows (acc * 10 + (b - b'0')) bs)

-- The two checked operations are one.
shifted_lem : (acc digit : ℕ) → shifted acc digit ≡ checked (acc * 10 + digit)
shifted_lem acc digit = ground arith

-- Every partial value is at most the last.
accumulate-decimal :
    (acc : ℕ) (bs : Bytes) → acc < 2 ^ 64 → accumulate acc bs ≡ checked (decimal acc bs)
unfolding accumulate
accumulate-decimal acc [] h = ground arith
accumulate-decimal acc (b ∷ bs) h =
    let next = acc * 10 + (b - b'0') in
    rw (shifted_lem acc (b - b'0'), accumulate)
      (elim (Bool-cases (ltb next (2 ^ 64))) [
        | inl small ↦ rw small (accumulate-decimal next bs (ground arith))
        | inr large ↦ ground (arith, decimal-grows next bs)
      ])

-- A token is an integer exactly when it is digits only, at least one, and their decimal value is
-- below 2 ^ 64; and then it is that value.
pub parse_int_lem :
    (token : Bytes) (n : ℕ)
    → (parse_int token ≡ some n)
      ↔ ((token ≢ []) × (all_digits token ≡ true) × (decimal 0 token ≡ n) × (n < 2 ^ 64))
unfolding parse_int
parse_int_lem [] n = ground arith
parse_int_lem (b ∷ bs) n = ground (arith, accumulate-decimal 0 (b ∷ bs))
