-- ===== src/Decompose/Tar/Fields.antt =====
-- src/decompose/tar.rs: the fields of a header block.
use async_chunker.Prelude.Words.{checked}
use async_chunker.Prelude.{
  ℕ, ◌+◌, ◌-◌, ◌*◌, Bool, true, false, not, ◌&&◌, ◌||◌, Option, none, some, [], ◌∷◌, ltb, leb, ◌==◌,
  if◌then◌else◌, Bytes, length, take, drop,
}

abbrev pub block_len : ℕ
block_len = 512

-- `&block[from..to]`
abbrev pub field : Bytes → ℕ → ℕ → Bytes
field block from to = take (to - from) (drop from block)

-- What a byte does to the value: it goes on with another, it ends the field, or it is refused.
pub data OctalStep : Type 0 where
  on : ℕ → Bool → OctalStep
  stop bad : OctalStep

-- `value.checked_mul(8)?.checked_add(digit)?`
abbrev pub octal_digit : ℕ → ℕ → OctalStep
octal_digit value digit = elim (checked (value * 8)) [
  | none ↦ bad
  | some high ↦ elim (checked (high + digit)) [ none ↦ bad | some next ↦ on next true ]
]

unfoldable pub octal_step : ℕ → Bool → ℕ → OctalStep
octal_step value seen byte =
    if leb b'0' byte && leb byte b'7'
    then octal_digit value (byte - b'0')
    else if byte == b' ' && not seen
    then on value seen
    else if byte == b' ' || byte == 0
    then stop
    else bad

abbrev pub then_some : Bool → ℕ → Option ℕ
then_some seen value = if seen then some value else none

-- The loop of `parse_octal`.
unfoldable pub octal : ℕ → Bool → Bytes → Option ℕ
octal value seen [] = then_some seen value
octal value seen (b ∷ bs) = elim (octal_step value seen b) [
  | on next seen_now ↦ octal next seen_now bs
  | stop ↦ then_some seen value
  | bad ↦ none
]

unfoldable pub parse_octal : Bytes → Option ℕ
unfolding octal octal_step
parse_octal field = octal 0 false field

-- The bytes before the first null byte.
unfoldable pub c_string : Bytes → Bytes
c_string [] = []
c_string (b ∷ bs) = let rest = c_string bs in if b == 0 then [] else b ∷ rest

-- The sum of the bytes, the checksum's own as spaces.
unfoldable pub sum_from : ℕ → Bytes → ℕ
sum_from index [] = 0
sum_from index (b ∷ bs) =
    (if leb 148 index && ltb index 156 then b' ' else b) + sum_from (index + 1) bs

abbrev pub declares : Bytes → Option ℕ → Bool
unfolding sum_from
declares block none = false
declares block (some declared) =
    let sum = sum_from 0 (take block_len block) in sum == declared && not (sum == 0)

unfoldable pub checksum_matches : Bytes → Bool
unfolding parse_octal sum_from
checksum_matches block =
    if ltb (length block) block_len
    then false
    else declares block (parse_octal (field block 148 156))
