-- ===== src/Gear/Masks.antt =====
-- Which hashes each cut mask lets through, and so how often a cut is placed.
use async_chunker.Constants.{
  structured_text_strict_mask, structured_text_relaxed_mask, mpegts_strict_mask,
  mpegts_relaxed_mask, framed_audio_strict_mask, framed_audio_relaxed_mask,
}
use async_chunker.Gear.{GearHash, u64_mod, cuts, generic_strict_mask, generic_relaxed_mask}
use async_chunker.Prelude.Bits.{ones_at, bit_and-ones_at}
use async_chunker.Prelude.{ℕ, ◌*◌, ◌/◌, ◌%◌, ◌^◌, ◌<◌, ◌≡◌, ◌↔◌, true, arith, ==_iff}

-- The hash passes exactly if those k bits are zero.
pub cuts-ones_at :
    (g : GearHash) (k s : ℕ) → (cuts g (ones_at k s) ≡ true) ↔ (g.hash / 2 ^ s % 2 ^ k * 2 ^ s ≡ 0)
unfolding cuts
cuts-ones_at g k s = rw (bit_and-ones_at g.hash k s) (==_iff _ _)

-- The mask passes exactly the hashes below 2 ^ s.
abbrev PassesBelow : ℕ → ℕ → Type 0
PassesBelow mask s = (g : GearHash) → g.hash < u64_mod → (cuts g mask ≡ true) ↔ (g.hash < 2 ^ s)

-- The mask passes exactly the multiples of 2 ^ k.
abbrev PassesMultiples : ℕ → ℕ → Type 0
PassesMultiples mask k = (g : GearHash) → (cuts g mask ≡ true) ↔ (g.hash % 2 ^ k ≡ 0)

-- The masks of the text, transport-stream and audio profiles select top bits: `structured-text-v1`
-- passes the hashes below 2 ^ 54 before the target length and those below 2 ^ 53 after it,
-- `mpegts-v1` those below 2 ^ 60 and 2 ^ 62, `framed-audio-v1` those below 2 ^ 57 and 2 ^ 59. The
-- generic masks select low bits: they pass the multiples of 2 ^ 18 and of 2 ^ 14.
pub mask_thresholds :
    PassesBelow structured_text_strict_mask 54
    × PassesBelow structured_text_relaxed_mask 53
    × PassesBelow mpegts_strict_mask 60
    × PassesBelow mpegts_relaxed_mask 62
    × PassesBelow framed_audio_strict_mask 57
    × PassesBelow framed_audio_relaxed_mask 59
    × PassesMultiples generic_strict_mask 18
    × PassesMultiples generic_relaxed_mask 14
unfolding generic_strict_mask generic_relaxed_mask
mask_thresholds = (
  λ g h.
      let p = cuts-ones_at g 10 54 in (λ e. let z = p.0 e in omega arith, λ l. p.1 (omega arith)),
  λ g h.
      let p = cuts-ones_at g 11 53 in (λ e. let z = p.0 e in omega arith, λ l. p.1 (omega arith)),
  λ g h. let p = cuts-ones_at g 4 60 in (λ e. let z = p.0 e in omega arith, λ l. p.1 (omega arith)),
  λ g h. let p = cuts-ones_at g 2 62 in (λ e. let z = p.0 e in omega arith, λ l. p.1 (omega arith)),
  λ g h. let p = cuts-ones_at g 7 57 in (λ e. let z = p.0 e in omega arith, λ l. p.1 (omega arith)),
  λ g h. let p = cuts-ones_at g 5 59 in (λ e. let z = p.0 e in omega arith, λ l. p.1 (omega arith)),
  λ g. let p = cuts-ones_at g 18 0 in (λ e. let z = p.0 e in omega arith, λ l. p.1 (omega arith)),
  λ g. let p = cuts-ones_at g 14 0 in (λ e. let z = p.0 e in omega arith, λ l. p.1 (omega arith)),
)

-- So every hash that the relaxed text mask passes, the strict one passes too, and not the other way.
pub text_relaxed_stricter :
    (g : GearHash)
    → g.hash < u64_mod
    → cuts g structured_text_relaxed_mask ≡ true
    → cuts g structured_text_strict_mask ≡ true
text_relaxed_stricter g h e =
    let below = (mask_thresholds.1 g h).0 e in (mask_thresholds.0 g h).1 (omega arith)
