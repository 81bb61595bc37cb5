-- ===== src/Isobmff/Walker/Stack.antt =====
-- The stack of open boxes: what a debit does to it, and that an inner box never has more left than the
-- box around it.
use mathlib.Core.Path.{subst}
use async_chunker.Isobmff.Walker.{debit, pop_exhausted}
use async_chunker.Prelude.{
  ℕ, zero, suc, ◌+◌, ◌-◌, ◌≤◌, ◌≡◌, refl, sym, ap, inl, inr, Option, none, some, List, [], ◌∷◌,
  arith, length, ltb, Bool-cases,
}
use async_chunker.Result.{ok, Ensures, Ensures-bind}

-- `ys` is `xs` with n taken from every bounded entry.
abbrev pub Debited : ℕ → List (Option ℕ) → List (Option ℕ) → Type 0
Debited n [] ys = ys ≡ []
Debited n (x ∷ xs) [] = ⊥
Debited n (none ∷ xs) (none ∷ ys) = Debited n xs ys
Debited n (none ∷ xs) (some b ∷ ys) = ⊥
Debited n (some a ∷ xs) (none ∷ ys) = ⊥
Debited n (some a ∷ xs) (some b ∷ ys) = (b + n ≡ a) × Debited n xs ys

pub debit-Debited : (n : ℕ) (xs : List (Option ℕ)) → Ensures (Debited n xs) (debit n xs)
unfolding debit
debit-Debited n [] = refl
debit-Debited n (none ∷ xs) =
    Ensures-bind (Debited n xs) (Debited n (none ∷ xs)) (debit n xs) _ (debit-Debited n xs)
      (λ ys h. h)
debit-Debited n (some r ∷ xs) =
    Ensures-bind (Debited n xs) (Debited n (some r ∷ xs)) (debit n xs) _ (debit-Debited n xs)
      (λ ys h. elim (Bool-cases (ltb r n)) [
        | inl short ↦ rw short tt
        | inr enough ↦ rw enough (ground arith, h)
      ])

pub Debited-length : (n : ℕ) (xs ys : List (Option ℕ)) → Debited n xs ys → length ys ≡ length xs
Debited-length n [] ys h = ap length h
Debited-length n (x ∷ xs) [] h = absurd h
Debited-length n (none ∷ xs) (none ∷ ys) h = ap suc (Debited-length n xs ys h)
Debited-length n (none ∷ xs) (some b ∷ ys) h = absurd h
Debited-length n (some a ∷ xs) (none ∷ ys) h = absurd h
Debited-length n (some a ∷ xs) (some b ∷ ys) h = ap suc (Debited-length n xs ys h.1)

-- Every bounded entry is at most the next one, and an open-ended entry can only be the outermost.
abbrev pub Below : ℕ → List (Option ℕ) → Type 0
Below n [] = Unit
Below n (none ∷ xs) = Unit
Below n (some a ∷ xs) = n ≤ a

abbrev pub Nested : List (Option ℕ) → Type 0
Nested [] = Unit
Nested (none ∷ xs) = xs ≡ []
Nested (some a ∷ xs) = Below a xs × Nested xs

pub Debited-Below :
    (n k m : ℕ) (xs ys : List (Option ℕ)) → Debited n xs ys → Below k xs → m + n ≤ k → Below m ys
Debited-Below n k m [] [] d b h = tt
Debited-Below n k m [] (none ∷ ys) d b h = tt
Debited-Below n k m [] (some c ∷ ys) d b h = absurd (omega (arith, ap (length {0}) d))
Debited-Below n k m (x ∷ xs) [] d b h = absurd d
Debited-Below n k m (none ∷ xs) (none ∷ ys) d b h = tt
Debited-Below n k m (none ∷ xs) (some c ∷ ys) d b h = absurd d
Debited-Below n k m (some a ∷ xs) (none ∷ ys) d b h = absurd d
Debited-Below n k m (some a ∷ xs) (some c ∷ ys) d b h = omega arith

pub Debited-Nested : (n : ℕ) (xs ys : List (Option ℕ)) → Debited n xs ys → Nested xs → Nested ys
Debited-Nested n [] [] d h = tt
Debited-Nested n [] (y ∷ ys) d h = absurd (omega (arith, ap (length {0}) d))
Debited-Nested n (x ∷ xs) [] d h = absurd d
Debited-Nested n (none ∷ xs) (none ∷ []) d h = refl
Debited-Nested n (none ∷ xs) (none ∷ y ∷ ys) d h =
    absurd (omega (arith, Debited-length n xs (y ∷ ys) d, ap (length {0}) h))
Debited-Nested n (none ∷ xs) (some b ∷ ys) d h = absurd d
Debited-Nested n (some a ∷ xs) (none ∷ ys) d h = absurd d
Debited-Nested n (some a ∷ xs) (some b ∷ ys) d h =
    (Debited-Below n a b xs ys d.1 h.0 (omega arith), Debited-Nested n xs ys d.1 h.1)

pub pop_exhausted-Nested : (xs : List (Option ℕ)) → Nested xs → Nested (pop_exhausted xs)
unfolding pop_exhausted
pop_exhausted-Nested [] h = tt
pop_exhausted-Nested (none ∷ xs) h = h
pop_exhausted-Nested (some zero ∷ xs) h = pop_exhausted-Nested xs h.1
pop_exhausted-Nested (some (suc n) ∷ xs) h = h

-- With n left in the innermost box, n bytes can be charged to all of them.
pub debit_within :
    (n k : ℕ) (xs : List (Option ℕ))
    → n ≤ k
    → Below k xs
    → Nested xs
    → (ys : List (Option ℕ)) × (debit n xs ≡ ok ys)
unfolding debit
debit_within n k [] h b l = ([], refl)
debit_within n k (none ∷ xs) h b l =
    let (ys, e) =
      debit_within n n xs (omega arith) (subst (Below n) (sym l) tt) (subst Nested (sym l) tt) in
    (none ∷ ys, rw e refl)
debit_within n k (some a ∷ xs) h b l =
    let (ys, e) = debit_within n a xs (omega arith) l.0 l.1 in
    (some (a - n) ∷ ys, rw e (ground arith))
