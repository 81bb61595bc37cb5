-- ===== src/Matroska/Varint.antt =====
-- src/chunker/matroska/varint.rs: EBML variable-length integers.
use Prim.Native.Nat.{bit_or}
use async_chunker.Prelude.{
  ℕ, ◌+◌, ◌-◌, ◌*◌, ◌/◌, ◌%◌, ◌^◌, Bool, bit_and, Option, none, some, [], ◌∷◌, leb, ◌==◌,
  if◌then◌else◌, Bytes, length,
}

-- `leading_zeros` of a byte.
unfoldable pub leading_zeros : ℕ → ℕ
leading_zeros b =
    if leb 128 b
    then 0
    else if leb 64 b
    then 1
    else if leb 32 b
    then 2
    else if leb 16 b
    then 3
    else if leb 8 b
    then 4
    else if leb 4 b
    then 5
    else if leb 2 b
    then 6
    else if leb 1 b
    then 7
    else 8

abbrev at_most : ℕ → ℕ → Option ℕ
at_most bound len = if leb len bound then some len else none

-- Four bytes at most.
unfoldable pub id_len : ℕ → Option ℕ
unfolding leading_zeros
id_len first = at_most 4 (leading_zeros first + 1)

-- Eight bytes at most.
unfoldable pub size_len : ℕ → Option ℕ
unfolding leading_zeros
size_len first = at_most 8 (leading_zeros first + 1)

-- `fold(acc, |acc, byte| (acc << 8) | byte)` on words of w bits.
unfoldable pub shift_in : ℕ → ℕ → Bytes → ℕ
shift_in w acc [] = acc
shift_in w acc (b ∷ bs) = shift_in w (bit_or (acc * 256 % 2 ^ w) b) bs

unfoldable pub id_value : Bytes → ℕ
unfolding shift_in
id_value = shift_in 32 0

-- The value, and whether it is the reserved one. The source is given one byte at least.
unfoldable pub size_value : Bytes → ℕ × Bool
unfolding shift_in
size_value [] = (0, 0 == 0)
size_value (b ∷ bs) =
    let marker = 0x80 / 2 ^ length bs in
    let value = shift_in 64 (bit_and b (marker - 1)) bs in
    (value, value == 2 ^ (7 * (length bs + 1)) - 1)
