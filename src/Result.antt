-- ===== src/Result.antt =====
-- `Result<A, E>` of the walkers, with `?` as bind.
use mathlib.Core.Logic.{◌⊎◌, inl, inr}
use mathlib.Core.Path.{◌≡◌, refl, subst}
use async_chunker.Prelude.{Option, none, some}

pub data Result {ℓ κ} (E : Type ℓ) (A : Type κ) : Type (ℓ ⊔ κ) where
  ok : A → Result E A
  err : E → Result E A

module _ {E A B : Type 0} where
  infixl 5 ◌>>=◌
  abbrev pub ◌>>=◌ : Result E A → (A → Result E B) → Result E B
  ok a >>= f = f a
  err e >>= f = err e

pub >>=_assoc :
    {E A B D : Type 0} (r : Result E A) (f : A → Result E B) (g : B → Result E D)
    → ((r >>= f) >>= g) ≡ (r >>= λ a. f a >>= g)
>>=_assoc (ok a) f g = refl
>>=_assoc (err e) f g = refl

-- `Option::ok_or`
abbrev pub ok_or : {E A : Type 0} → Option A → E → Result E A
ok_or none e = err e
ok_or (some a) e = ok a

pub Result-cases :
    {E A : Type 0} (r : Result E A) → ((a : A) × (r ≡ ok a)) ⊎ ((e : E) × (r ≡ err e))
Result-cases (ok a) = inl (a, refl)
Result-cases (err e) = inr (e, refl)

-- A successful result satisfies P.
abbrev pub Ensures {ℓ} : {E A : Type 0} → (A → Type ℓ) → Result E A → Type ℓ
Ensures P (ok a) = P a
Ensures P (err e) = Unit

pub Ensures-bind :
    {E A B : Type 0} (P : A → Type 0) (Q : B → Type 0) (m : Result E A) (f : A → Result E B)
    → Ensures P m
    → ((a : A) → P a → Ensures Q (f a))
    → Ensures Q (m >>= f)
Ensures-bind P Q (ok a) f h k = k a h
Ensures-bind P Q (err e) f h k = tt

-- A result that ensures P is an error, or a value with P.
pub Ensures-ok :
    {E A : Type 0} (P : A → Type 0) (m : Result E A) (a : A) → m ≡ ok a → Ensures P m → P a
Ensures-ok P m a e h = subst (Ensures P) e h

pub Ensures-weaken :
    {E : Type 0} {A : Type 0} (P Q : A → Type 0) (r : Result E A)
    → ((a : A) → P a → Q a)
    → Ensures P r
    → Ensures Q r
Ensures-weaken P Q (ok a) f h = f a h
Ensures-weaken P Q (err e) f h = tt

pub Ensures-both :
    {E : Type 0} {A : Type 0} (P Q R : A → Type 0) (r : Result E A)
    → Ensures P r
    → Ensures Q r
    → ((a : A) → P a → Q a → R a)
    → Ensures R r
Ensures-both P Q R (ok a) p q f = f a p q
Ensures-both P Q R (err e) p q f = tt
