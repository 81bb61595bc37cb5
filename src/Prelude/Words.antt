-- ===== src/Prelude/Words.antt =====
-- Words of 64 bits: checked results, and `str::parse` of an unsigned number.
use mathlib.Core.Bool.{◌&&◌}
use mathlib.Core.List.{[], ◌∷◌}
use mathlib.Core.Option.{Option, none, some}
use Prim.Native.Nat.{ℕ, ◌+◌, ◌-◌, ◌*◌, ◌^◌}
use async_chunker.Prelude.Lists.{Bytes, is_empty}
use async_chunker.Prelude.Tests.{ltb, leb, ◌==◌, if◌then◌else◌}

-- A result that is left out where it does not fit in 64 bits.
abbrev pub checked : ℕ → Option ℕ
checked n = if ltb n (2 ^ 64) then some n else none

-- A value and one more digit.
abbrev pub digit_more : ℕ → ℕ → Option ℕ
digit_more value b = if leb b'0' b && leb b b'9' then checked (value * 10 + (b - b'0')) else none

unfoldable pub digits_from : ℕ → Bytes → Option ℕ
digits_from value [] = some value
digits_from value (b ∷ bs) = elim (digit_more value b) [ none ↦ none | some n ↦ digits_from n bs ]

abbrev unsigned : Bytes → Bytes
unsigned [] = []
unsigned (b ∷ bs) = if b == b'+' then bs else b ∷ bs

-- `parse`: digits only, one at least, behind one plus sign at most.
unfoldable pub parse_u64 : Bytes → Option ℕ
unfolding digits_from
parse_u64 text = if is_empty (unsigned text) then none else digits_from 0 (unsigned text)
