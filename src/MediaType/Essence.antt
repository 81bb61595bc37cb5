-- ===== src/MediaType/Essence.antt =====
-- Trimming and splitting what was rendered, and the round trip of whole media types.
use async_chunker.Constants.{max_media_type_name_bytes}
use async_chunker.Errors.{MediaTypeError}
use async_chunker.MediaType.Cursor.{
  is_restricted_name_byte, is_token_byte, is_token, is_space, all_bytes,
}
use async_chunker.MediaType.Display.{escaped, value_text, parameters_text}
use async_chunker.MediaType.Normal.{Name}
use async_chunker.MediaType.Parse.{
  trim_start, trim_end, split_at, check_restricted_name, position_not,
}
use async_chunker.MediaType.RoundTrip.{no_space}
use async_chunker.MediaType.Tokens.{differs, Stops, run-all}
use async_chunker.MediaType.{Parameter}
use async_chunker.Prelude.{
  ℕ, ◌≤◌, ◌≡◌, refl, ap, Bool, true, false, not, ◌&&◌, none, some, String, List, [], ◌∷◌, ◌++◌,
  arith, ltb, ◌==◌, if◌then◌else◌, Bytes, length, is_empty, append-nil, Bool-cases, inl, inr,
}
use async_chunker.Result.{ok}

-- Nothing is trimmed off the end, and there is something.
abbrev pub Solid : Bytes → Type 0
Solid xs = (trim_end xs ≡ xs) × (is_empty xs ≡ false)

pub Solid-append : (xs ys : Bytes) → Solid ys → Solid (xs ++ ys)
Solid-append [] ys s = s
Solid-append (x ∷ xs) ys s =
    let (kept, there) = Solid-append xs ys s in (rw (kept, there) (keeps x (xs ++ ys)), refl)
  where
    keeps : (b : ℕ) (bs : Bytes) → (if is_space b && false then [] else b ∷ bs) ≡ b ∷ bs
    keeps b bs = ground arith

Solid-last : (b : ℕ) → is_space b ≡ false → Solid (b ∷ [])
Solid-last b h = ground arith

-- Bytes that pass a test that no space passes.
pub Solid-all :
    (p : ℕ → Bool) (xs : Bytes)
    → ((b : ℕ) → p b ≡ true → is_space b ≡ false)
    → all_bytes p xs ≡ true
    → is_empty xs ≡ false
    → Solid xs
Solid-all p [] h a n = ground arith
Solid-all p (x ∷ []) h a n = Solid-last x (h x (ground arith))
Solid-all p (x ∷ y ∷ xs) h a n =
    Solid-append (x ∷ []) (y ∷ xs) (Solid-all p (y ∷ xs) h (ground arith) refl)

value_text-Solid : (v : Bytes) → Solid (value_text v)
unfolding value_text is_token
value_text-Solid v = elim (Bool-cases (is_token v)) [
  | inl plain ↦ rw plain (Solid-all is_token_byte v no_space (ground arith) (ground arith))
  | inr other ↦ rw other (Solid-append (b'"' ∷ escaped v) (b'"' ∷ []) (refl, refl))
]

pub parameters_text-Solid : (p : Parameter) (ps : List Parameter) → Solid (parameters_text (p ∷ ps))
unfolding parameters_text
parameters_text-Solid p [] = Solid-append (b';' ∷ p.name) (b'=' ∷ (value_text p.value ++ [])) (
    Solid-append (b'=' ∷ []) (value_text p.value ++ [])
      (rw (append-nil (value_text p.value)) (value_text-Solid p.value)))
parameters_text-Solid p (q ∷ qs) =
    Solid-append (b';' ∷ p.name) (b'=' ∷ (value_text p.value ++ parameters_text (q ∷ qs))) (
      Solid-append (b'=' ∷ value_text p.value) (parameters_text (q ∷ qs))
        (parameters_text-Solid q qs))

pub trim_start-Stops : (xs : Bytes) → Stops is_space xs → trim_start xs ≡ xs
trim_start-Stops xs s = ap (λ (r : Bytes × Bytes). r.1) (run-all is_space [] xs refl s)

-- No byte is that one.
abbrev pub without : ℕ → ℕ → Bool
without c b = not (b == c)

pub split_at-none : (c : ℕ) (xs : Bytes) → all_bytes (without c) xs ≡ true → split_at c xs ≡ none
split_at-none c [] a = refl
split_at-none c (x ∷ xs) a =
    let here : (x == c) ≡ false = ground arith in rw (here, split_at-none c xs (ground arith)) refl

pub split_at-append :
    (c : ℕ) (xs ys : Bytes)
    → all_bytes (without c) xs ≡ true
    → split_at c (xs ++ c ∷ ys) ≡ some (xs, ys)
split_at-append c [] ys a = ground arith
split_at-append c (x ∷ xs) ys a =
    let here : (x == c) ≡ false = ground arith in
    rw (here, split_at-append c xs ys (ground arith)) refl

all_bytes-weaken :
    (p q : ℕ → Bool) (xs : Bytes)
    → ((b : ℕ) → p b ≡ true → q b ≡ true)
    → all_bytes p xs ≡ true
    → all_bytes q xs ≡ true
all_bytes-weaken p q [] h a = refl
all_bytes-weaken p q (x ∷ xs) h a =
    let here : q x ≡ true = h x (ground arith) in
    rw (here, all_bytes-weaken p q xs h (ground arith)) refl

pub all_bytes-append :
    (p : ℕ → Bool) (xs ys : Bytes)
    → all_bytes p xs ≡ true
    → all_bytes p ys ≡ true
    → all_bytes p (xs ++ ys) ≡ true
all_bytes-append p [] ys a b = b
all_bytes-append p (x ∷ xs) ys a b =
    let here : p x ≡ true = ground arith in
    rw (here, all_bytes-append p xs ys (ground arith) b) refl

pub Name-without :
    (c : ℕ) (n : Bytes)
    → is_restricted_name_byte c ≡ false
    → Name n
    → all_bytes (without c) n ≡ true
Name-without c n h w =
    all_bytes-weaken is_restricted_name_byte (without c) n
      (λ b t. let other = differs is_restricted_name_byte c b h t in rw other refl) w.restricted

-- Neither separator stands in a name, and no space.
pub separators :
    (is_restricted_name_byte b'/' ≡ false)
    × (is_restricted_name_byte b';' ≡ false)
    × (is_restricted_name_byte b' ' ≡ false)
    × (is_restricted_name_byte 9 ≡ false)
unfolding is_restricted_name_byte
separators = (refl, refl, refl, refl)

pub restricted_no_space : (b : ℕ) → is_restricted_name_byte b ≡ true → is_space b ≡ false
restricted_no_space b t =
    let (_, _, blank, tab) = separators in
    let not_blank = differs is_restricted_name_byte b' ' b blank t in
    let not_tab = differs is_restricted_name_byte 9 b tab t in ground arith

pub Name-there : (n : Bytes) → Name n → is_empty n ≡ false
Name-there [] w = let f = w.first in ground arith
Name-there (b ∷ bs) w = refl

pub Name-Stops : (n rest : Bytes) → Name n → Stops is_space (n ++ rest)
Name-Stops [] rest w = let f = w.first in ground arith
Name-Stops (b ∷ bs) rest w = restricted_no_space b (let r = w.restricted in ground arith)

position_not-none : (p : ℕ → Bool) (xs : Bytes) → all_bytes p xs ≡ true → position_not p xs ≡ none
position_not-none p [] a = refl
position_not-none p (x ∷ xs) a =
    let here : p x ≡ true = ground arith in rw (here, position_not-none p xs (ground arith)) refl

pub check_restricted_name-Name :
    (n : Bytes) (offset : ℕ) (component : String) (invalid : ℕ → MediaTypeError)
    → Name n
    → check_restricted_name n offset component invalid ≡ ok tt
unfolding check_restricted_name
check_restricted_name-Name n offset component invalid w =
    let short : ltb max_media_type_name_bytes (length n) ≡ false = fits (length n) w.size in
    rw (short, w.first, position_not-none is_restricted_name_byte n w.restricted) refl
  where
    fits : (k : ℕ) → k ≤ max_media_type_name_bytes → ltb max_media_type_name_bytes k ≡ false
    fits k h = ground arith
