-- ===== src/Gear.antt =====
-- src/chunker/gear.rs: the gear table, the rolling hash that it drives, and the generic masks.
pub mod Window
pub mod Masks
use async_chunker.Constants.{chunk_target}
use async_chunker.Prelude.{
  ℕ, zero, suc, ◌+◌, ◌-◌, ◌*◌, ◌/◌, ◌%◌, ◌^◌, ◌<◌, Bool, String, List, [], ◌∷◌, bit_and, leb, ◌==◌,
  if◌then◌else◌, Bytes,
}

-- `blake3::Hasher` is another crate: the bytes of its extendable output for a seed.
pub record Blake3 : Type 0 where
  pub xof : String → ℕ → ℕ
  pub xof_byte : (seed : String) (i : ℕ) → xof seed i < 256

abbrev pub u64_mod : ℕ
u64_mod = 2 ^ 64

-- The table is the function from a byte value to its entry.
pub record GearHash : Type 0 where
  pub table : ℕ → ℕ
  pub hash : ℕ

-- `u64::from_be_bytes` on n bytes of `raw` from place i.
unfoldable pub from_be : (ℕ → ℕ) → ℕ → ℕ → ℕ → ℕ
from_be raw i zero acc = acc
from_be raw i (suc n) acc = from_be raw (i + 1) n (acc * 256 + raw i)

-- `GearHash::new`: entry i is the i-th group of eight bytes.
unfoldable pub new : Blake3 → String → GearHash
new blake3 seed = record { table = λ i. from_be (blake3.xof seed) (8 * i) 8 0; hash = 0 }

-- `(hash << 1).wrapping_add(table[byte])`
unfoldable pub update : GearHash → ℕ → GearHash
update g byte = record g { hash = (g.hash * 2 % u64_mod + g.table byte) % u64_mod }

-- `for &byte in bytes { hash.update(byte) }`
unfoldable pub update_all : GearHash → Bytes → GearHash
update_all g [] = g
update_all g (b ∷ bs) = update_all (update g b) bs

unfoldable pub cuts : GearHash → ℕ → Bool
cuts g mask = bit_and g.hash mask == 0

abbrev pub reset : GearHash → GearHash
reset g = record g { hash = 0 }

-- `next_power_of_two`, which doubles from 1; 64 rounds reach every 64-bit result.
next_power_from : ℕ → ℕ → ℕ → ℕ
next_power_from zero p n = p
next_power_from (suc fuel) p n =
    let rest = next_power_from fuel (p * 2) n in if leb n p then p else rest

next_power_of_two : ℕ → ℕ
unfolding next_power_from
next_power_of_two = next_power_from 64 1

unfoldable pub generic_strict_mask : ℕ
unfolding next_power_of_two
generic_strict_mask = next_power_of_two (chunk_target * 4) - 1

unfoldable pub generic_relaxed_mask : ℕ
unfolding next_power_of_two
generic_relaxed_mask = next_power_of_two (chunk_target / 4) - 1
