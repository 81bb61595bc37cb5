-- ===== src/Gear/Window.antt =====
-- The rolling hash forgets all but the last 64 bytes.
use async_chunker.Gear.{GearHash, u64_mod, update, update_all, cuts, reset}
use async_chunker.Prelude.{
  ℕ, zero, suc, ◌+◌, ◌-◌, ◌*◌, ◌%◌, ◌^◌, ◌≤◌, ◌<◌, ◌≡◌, refl, [], ◌∷◌, ◌++◌, arith, Bytes, length,
  sym, ap, ◌∙◌,
}
use native.Mathlib.Nat.{two-pow-succ}

-- The hash without wrap-around.
roll : (ℕ → ℕ) → ℕ → Bytes → ℕ
roll table h [] = h
roll table h (b ∷ bs) = roll table (h * 2 + table b) bs

-- An initial value is shifted out by one place for each byte.
roll_shift :
    (table : ℕ → ℕ) (h : ℕ) (bs : Bytes) → roll table h bs ≡ h * 2 ^ length bs + roll table 0 bs
unfolding roll
roll_shift table h [] = omega arith
roll_shift table h (b ∷ bs) = omega (
  arith,
  roll_shift table (h * 2 + table b) bs,
  roll_shift table (0 + table b) bs,
  ap (λ (t : ℕ). h * t) (two-pow-succ (length bs)),
)

update_all-roll :
    (g : GearHash) (h : ℕ) (bs : Bytes)
    → g.hash % u64_mod ≡ h % u64_mod
    → (update_all g bs).hash % u64_mod ≡ roll g.table h bs % u64_mod
unfolding update_all update roll
update_all-roll g h [] e = e
update_all-roll g h (b ∷ bs) e = update_all-roll (update g b) (h * 2 + g.table b) bs (omega arith)

update_all-hash_lt : (g : GearHash) (b : ℕ) (bs : Bytes) → (update_all g (b ∷ bs)).hash < u64_mod
unfolding update_all update
update_all-hash_lt g b [] = omega arith
update_all-hash_lt g b (c ∷ bs) = update_all-hash_lt (update g b) c bs

pow_split : (k : ℕ) → 2 ^ (k + 64) ≡ u64_mod * 2 ^ k
pow_split zero = refl
pow_split (suc k) =
    let next : suc k + 64 ≡ suc (k + 64) = omega arith in
    rw next (omega (arith, pow_split k, two-pow-succ k, two-pow-succ (k + 64)))

-- Past 64 bytes an initial value is a multiple of the modulus.
roll_forgets :
    (table : ℕ → ℕ) (h : ℕ) (bs : Bytes)
    → 64 ≤ length bs
    → roll table h bs % u64_mod ≡ roll table 0 bs % u64_mod
roll_forgets table h bs n =
    let k = length bs - 64 in
    let whole : length bs ≡ k + 64 = omega arith in
    let shifted : roll table h bs ≡ h * (u64_mod * 2 ^ k) + roll table 0 bs =
      roll_shift table h bs
      ∙ ap (λ (t : ℕ). h * 2 ^ t + roll table 0 bs) whole
      ∙ ap (λ (t : ℕ). h * t + roll table 0 bs) (pow_split k) in
    omega (arith, shifted)

hash-eq_mod :
    (g : GearHash) (bs : Bytes)
    → 64 ≤ length bs
    → (update_all g bs).hash % u64_mod ≡ (update_all g bs).hash
hash-eq_mod g [] n = absurd (omega arith)
hash-eq_mod g (b ∷ bs) n = omega (arith, update_all-hash_lt g b bs)

update_all-append :
    (g : GearHash) (xs ys : Bytes) → update_all g (xs ++ ys) ≡ update_all (update_all g xs) ys
unfolding update_all
update_all-append g [] ys = refl
update_all-append g (x ∷ xs) ys = update_all-append (update g x) xs ys

pub update_all-table : (g : GearHash) (bs : Bytes) → (update_all g bs).table ≡ g.table
unfolding update_all update
update_all-table g [] = refl
update_all-table g (b ∷ bs) = update_all-table (update g b) bs

-- Two hashes over one table that took the same 64 bytes last agree, whatever came before.
pub update_all_window :
    (g h : GearHash) (bs : Bytes)
    → g.table ≡ h.table
    → 64 ≤ length bs
    → (update_all g bs).hash ≡ (update_all h bs).hash
update_all_window g h bs e n =
    sym (hash-eq_mod g bs n)
    ∙ update_all-roll g g.hash bs refl
    ∙ roll_forgets g.table g.hash bs n
    ∙ ap (λ (t : ℕ → ℕ). roll t 0 bs % u64_mod) e
    ∙ sym (roll_forgets h.table h.hash bs n)
    ∙ sym (update_all-roll h h.hash bs refl)
    ∙ hash-eq_mod h bs n

-- A cut verdict is a function of the last 64 bytes: two chunks over one gear table whose bytes so far
-- end in the same bytes `last`, at least 64 of them, get the same verdict under every mask, whatever
-- stands before `last` in each.
pub cuts_window :
    (g : GearHash) (xs ys last : Bytes) (mask : ℕ)
    → 64 ≤ length last
    → cuts (update_all g (xs ++ last)) mask ≡ cuts (update_all (reset g) (ys ++ last)) mask
unfolding cuts
cuts_window g xs ys last mask n =
    let same : (update_all g (xs ++ last)).hash ≡ (update_all (reset g) (ys ++ last)).hash =
      ap (λ (t : GearHash). t.hash) (update_all-append g xs last)
      ∙ update_all_window (update_all g xs) (update_all (reset g) ys) last
          (update_all-table g xs ∙ sym (update_all-table (reset g) ys)) n
      ∙ ap (λ (t : GearHash). t.hash) (sym (update_all-append (reset g) ys last)) in
    rw same
