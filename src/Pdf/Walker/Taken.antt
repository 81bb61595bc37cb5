-- ===== src/Pdf/Walker/Taken.antt =====
-- The walker behind bytes that it takes.
use async_chunker.Pdf.Walker.{item, Walker, W, new, consume}
use async_chunker.Prelude.{ℕ, ◌≡◌, refl, ap, Option, none, some, [], ◌∷◌, ◌++◌, inl, inr, Bytes}
use async_chunker.Result.{ok, err, Result-cases}

-- The walker behind the bytes, if it rejects none of them.
unfoldable pub taken : Walker → Bytes → Option Walker
unfolding consume
taken w [] = some w
taken w (b ∷ bs) = elim ((consume w b).1) [ ok large ↦ taken (consume w b).0 bs | err fault ↦ none ]

-- The bytes are a beginning of a document behind which an item may begin.
abbrev pub AtItem : Bytes → Type 0
AtItem seen = (w : Walker) × (taken new seen ≡ some w) × (w.state ≡ item)

pub taken-append :
    (u w : Walker) (xs ys : Bytes) → taken u xs ≡ some w → taken u (xs ++ ys) ≡ taken w ys
unfolding taken
taken-append u w [] ys e = let same : u ≡ w = cc in ap (λ (v : Walker). taken v ys) same
taken-append u w (x ∷ xs) ys e = elim (Result-cases ((consume u x).1)) [
  | inl (large, read) ↦
      rw (read, taken) (taken-append (consume u x).0 w xs ys (rw (read, taken) at e))
  | inr (fault, refused) ↦ let no : none ≡ some w = (rw (refused, taken) at e) in absurd cc
]

pub taken_one :
    (w : Walker) (b : ℕ) (large : Option ℕ)
    → (consume w b).1 ≡ ok large
    → taken w (b ∷ []) ≡ some (consume w b).0
unfolding taken
taken_one w b large e = rw (e, taken) refl

pub taken_on :
    (w v : Walker) (b : ℕ) (bs : Bytes) → consume w b ≡ (v, ok none) → taken w (b ∷ bs) ≡ taken v bs
unfolding taken
taken_on w v b bs e =
    ap
      (λ (r : Walker × W (Option ℕ)). elim (r.1) as (λ x. Option Walker) [
        | ok large ↦ taken r.0 bs
        | err fault ↦ none
      ])
      e
