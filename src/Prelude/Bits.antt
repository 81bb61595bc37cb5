-- ===== src/Prelude/Bits.antt =====
-- Masks: `bit_and` with a run of ones at any place.
use Prim.Native.Nat.{
  ℕ, zero, suc, ◌+◌, ◌*◌, ◌/◌, ◌%◌, ◌-◌, ◌^◌, ◌≤◌, ◌<◌, min, bit_and, digits, bit_and-bitwise,
}
use mathlib.Core.Path.{◌≡◌, sym, ap, ◌∙◌}
use native.Mathlib.Nat.{
  two-pow-succ, div-div-eq-div-mul, one-le-pow, div-add-mod, add-mul-mod_self_left, mod-eq_of_lt,
  mod-lt, zero-div, zero-mod,
}
use native.Mathlib.Omega.{arith}

-- A mask of k ones from bit s on, and what it keeps of a number.
abbrev pub ones_at : ℕ → ℕ → ℕ
ones_at k s = (2 ^ k - 1) * 2 ^ s

abbrev pub kept : ℕ → ℕ → ℕ → ℕ
kept k s a = a / 2 ^ s % 2 ^ k * 2 ^ s

-- The low k + 1 bits of a number are its last one and the low k bits of its half.
mod-double : (a p : ℕ) → 0 < p → a % (p + p) ≡ a / 2 % p * 2 + a % 2
mod-double a p h =
    let r = a / 2 % p in
    let q = a / 2 / p in
    let split : a ≡ r * 2 + a % 2 + (p + p) * q = omega (arith, div-add-mod (a / 2) p) in
    ap (λ (t : ℕ). t % (p + p)) split
    ∙ add-mul-mod_self_left (r * 2 + a % 2) (p + p) q
    ∙ mod-eq_of_lt (omega (arith, mod-lt (a / 2) h))

-- The mask and what it keeps, one bit on: past a place below the run, and past a bit of the run.
ones_at_above : (k s : ℕ) → ones_at k (suc s) ≡ ones_at k s + ones_at k s
ones_at_above k s = omega (arith, ap (λ (t : ℕ). (2 ^ k - 1) * t) (two-pow-succ s))

ones_at_run : (k : ℕ) → ones_at (suc k) 0 ≡ ones_at k 0 + ones_at k 0 + 1
ones_at_run k = omega (arith, one-le-pow k 2 (omega arith), two-pow-succ k)

kept_above : (k s a : ℕ) → kept k (suc s) a ≡ kept k s (a / 2) * 2
kept_above k s a =
    let twice : 2 * 2 ^ s ≡ 2 ^ suc s = omega (arith, two-pow-succ s) in
    let place : a / 2 / 2 ^ s ≡ a / 2 ^ suc s =
      div-div-eq-div-mul a 2 (2 ^ s) ∙ ap (λ (t : ℕ). a / t) twice in
    rw place (omega (arith, ap (λ (t : ℕ). a / 2 ^ suc s % 2 ^ k * t) (two-pow-succ s)))

kept_run : (k a : ℕ) → kept (suc k) 0 a ≡ kept k 0 (a / 2) * 2 + a % 2
kept_run k a =
    let whole : a / 1 ≡ a = omega arith in
    let half : a / 2 / 1 ≡ a / 2 = omega arith in
    rw (whole, half, two-pow-succ k)
      (omega (arith, mod-double a (2 ^ k) (one-le-pow k 2 (omega arith))))

kept-zero : (k s : ℕ) → kept k s 0 ≡ 0
kept-zero k s = rw (zero-div (2 ^ s), zero-mod (2 ^ k)) (omega arith)

-- The digits of a mask of ones, with any fuel that reaches the number.
digits-ones_at : (n k s a : ℕ) → a ≤ n → digits (λ b. zero) min n a (ones_at k s) ≡ kept k s a
digits-ones_at zero k s zero h = sym (kept-zero k s)
digits-ones_at zero k s (suc a) h = absurd (omega arith)
digits-ones_at (suc n) k s zero h = sym (kept-zero k s)
digits-ones_at (suc n) zero zero (suc a) h =
    omega (arith, digits-ones_at n zero zero (suc a / 2) (omega arith))
digits-ones_at (suc n) (suc k) zero (suc a) h =
    let m = ones_at k 0 in
    let half : (m + m + 1) / 2 ≡ m = omega arith in
    rw (ones_at_run k, half)
      (omega (arith, digits-ones_at n k zero (suc a / 2) (omega arith), kept_run k (suc a)))
digits-ones_at (suc n) k (suc s) (suc a) h =
    let m = ones_at k s in
    let half : (m + m) / 2 ≡ m = omega arith in
    rw (ones_at_above k s, half)
      (omega (arith, digits-ones_at n k s (suc a / 2) (omega arith), kept_above k s (suc a)))

-- A mask of k ones from bit s on keeps those k bits, in their place.
pub bit_and-ones_at : (a k s : ℕ) → bit_and a (ones_at k s) ≡ kept k s a
bit_and-ones_at a k s = bit_and-bitwise a (ones_at k s) ∙ digits-ones_at a k s a (omega arith)
