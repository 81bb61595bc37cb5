-- ===== src/Probe/Set.antt =====
-- src/probe/set.rs: sets of profiles, one bit for each in registry order.
use Prim.Native.Nat.{bit_or}
use async_chunker.Errors.{ProfileSet}
use async_chunker.Prelude.{
  ℕ, zero, suc, ◌+◌, ◌/◌, ◌%◌, ◌^◌, Bool, not, List, [], ◌∷◌, ◌==◌, if◌then◌else◌, bit_and,
}
use async_chunker.Profile.{ChunkingProfile, all, id}

abbrev pub empty : ProfileSet
empty = record { bits = 0 }

-- `==` on profiles.
abbrev pub same : ChunkingProfile → ChunkingProfile → Bool
unfolding id
same p q = id p == id q

-- `position`; every profile is in the list, so its end is not reached.
unfoldable pub position : List ChunkingProfile → ChunkingProfile → ℕ
unfolding id
position [] profile = 0
position (p ∷ ps) profile = if same p profile then 0 else position ps profile + 1

unfoldable pub bit : ChunkingProfile → ℕ
unfolding position
bit profile = 2 ^ position all profile

unfoldable pub insert : ProfileSet → ChunkingProfile → ProfileSet
unfolding bit
insert set profile = record { bits = bit_or set.bits (bit profile) }

unfoldable pub single : ChunkingProfile → ProfileSet
unfolding insert
single profile = insert empty profile

unfoldable pub contains : ProfileSet → ChunkingProfile → Bool
unfolding bit
contains set profile = not (bit_and set.bits (bit profile) == 0)

-- `count_ones`, over that many bits.
abbrev pub ones : ℕ → ℕ → ℕ
ones zero n = 0
ones (suc k) n = n % 2 + ones k (n / 2)

unfoldable pub len : ProfileSet → ℕ
len set = ones 16 set.bits

unfoldable pub is_empty : ProfileSet → Bool
is_empty set = set.bits == 0

-- `filter`
unfoldable pub members : ProfileSet → List ChunkingProfile → List ChunkingProfile
unfolding contains
members set [] = []
members set (p ∷ ps) = let rest = members set ps in if contains set p then p ∷ rest else rest

unfoldable pub iter : ProfileSet → List ChunkingProfile
unfolding members
iter set = members set all
