-- ===== src/Zip/Extra/Areas.antt =====
-- Extra areas as lists of fields, and what the search finds in them.
use async_chunker.Prelude.{
  Bool, ℕ, zero, suc, ◌+◌, ◌*◌, ◌/◌, ◌%◌, ◌≤◌, ◌<◌, ◌≡◌, refl, false, Option, none, some, List, [],
  ◌∷◌, ◌++◌, arith, Bytes, All, ltb, ◌==◌, if◌then◌else◌, length, length-append, take-append,
  drop-append,
}
use async_chunker.Result.{ok}
use async_chunker.Zip.Extra.{find, find_from, zip64_id}
use async_chunker.Zip.Numbers.{W}

pub record Field : Type 0 where
  pub id : ℕ
  pub content : Bytes

-- The two bytes of a `u16`, low byte first, in front of the rest.
abbrev le16 : ℕ → Bytes → Bytes
le16 n rest = n % 256 ∷ n / 256 ∷ rest

-- The layout (id, size, data)* of an area.
abbrev pub area : List Field → Bytes
area [] = []
area (f ∷ fs) = le16 f.id (le16 (length f.content) (f.content ++ area fs))

-- Both fit sixteen bits.
pub record Fits (f : Field) : Type 0 where
  pub id : f.id < 65536
  pub size : length f.content < 65536

-- The content of the first field that has the id.
abbrev pub first : List Field → Option Bytes
first [] = none
first (f ∷ fs) = if f.id == zip64_id then some f.content else first fs

u16_of : (n : ℕ) → n < 65536 → n % 256 % 256 + 256 * (n / 256 % 256 + 0) ≡ n
u16_of n h = omega arith

find_from-area :
    (fuel : ℕ) (fs : List Field)
    → All Fits fs
    → length (area fs) ≤ fuel
    → find_from fuel (area fs) ≡ ok (first fs)
unfolding find_from
find_from-area zero [] h k = refl
find_from-area (suc fuel) [] h k = refl
find_from-area zero (f ∷ fs) h k = absurd (omega arith)
find_from-area (suc fuel) (f ∷ fs) (h, hs) k =
    let len = length-append f.content (area fs) in
    let id = u16_of f.id h.id in
    let size = u16_of (length f.content) h.size in
    let rest = find_from-area fuel fs hs (omega (arith, len)) in
    let whole = suc (suc (suc (suc (length (f.content ++ area fs))))) in
    let enough : ltb whole 4 ≡ false = ground arith in
    let inside : ltb whole (4 + length f.content) ≡ false = ground (arith, len) in
    rw
      (
        size,
        id,
        enough,
        inside,
        take-append f.content (area fs),
        drop-append f.content (area fs),
        rest,
      )
      (pushed (f.id == zip64_id) (some f.content) (first fs))
  where
    pushed :
        (b : Bool) (x y : Option Bytes)
        → if◌then◌else◌ {A = W (Option Bytes)} b (ok x) (ok y) ≡ ok (if b then x else y)
    pushed b x y = ground arith

-- In an area of fields whose ids and sizes fit their sixteen bits, `find` succeeds with the content of the
-- first field that has the ZIP64 id, and with nothing if there is none.
pub find-area : (fs : List Field) → All Fits fs → find (area fs) ≡ ok (first fs)
unfolding find
find-area fs h = find_from-area (length (area fs)) fs h (omega arith)
