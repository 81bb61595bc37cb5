-- ===== src/Pdf/Walker/Past.antt =====
-- What the bytes seen so far say of the walker's state.
use async_chunker.Pdf.Object.{is_whitespace, is_line_end}
use async_chunker.Pdf.Walker.{State, magic, item, comment, Walker, step, magic_bytes}
use async_chunker.Pdf.Walker.Later.{Plain, Moves, later-Moves}
use async_chunker.Pdf.Walker.Taken.{AtItem}
use async_chunker.Pdf.Walker.Payload.{all_white}
use async_chunker.Prelude.Text.{codes}
use async_chunker.Prelude.{
  ℕ, zero, suc, ◌≤◌, ◌<◌, ◌≡◌, ◌≢◌, refl, sym, ap, ◌∙◌, Bool, true, false, [], ◌∷◌, ◌++◌, arith,
  length, Bytes, take, get_or, append_assoc,
}
use async_chunker.Result.{Ensures, Ensures-weaken}

-- What is last but for white space is the comment `%%EOF` with its line end, and it stands where an item may begin.
pub record Ended (seen : Bytes) : Type 0 where
  pub before : Bytes
  pub line_end : ℕ
  pub white : Bytes
  pub is_line_end : is_line_end line_end ≡ true
  pub is_white : all_white white ≡ true
  pub at_item : AtItem before
  pub split : before ++ (codes "%%EOF" ++ line_end ∷ white) ≡ seen

-- The comment so far, while all of it is kept.
abbrev pub Commented : State → Bytes → Type 0
Commented (comment line len) seen =
    len ≤ 5 → (before : Bytes) × (before ++ line ≡ seen) × AtItem before
Commented _ seen = Unit

-- The magic so far.
abbrev pub Begun : State → Bytes → Type 0
Begun (magic matched) seen = (matched < 5) × (take matched magic_bytes ≡ seen)
Begun _ seen = (rest : Bytes) × (magic_bytes ++ rest ≡ seen)

pub record Past (st : State) (eof_last : Bool) (seen : Bytes) : Type 0 where
  pub begun : Begun st seen
  pub commented : Commented st seen
  pub ended : eof_last ≡ true → (st ≡ item) × Ended seen

abbrev pub PastOf : Bytes → Walker → Type 0
PastOf seen w = Past w.state w.eof_last seen

pub eof_off : (st : State) (e : Bool) (seen : Bytes) → Past st e seen → st ≢ item → e ≡ false
eof_off st true seen p n = absurd (n (p.ended refl).0)
eof_off st false seen p n = refl

-- The bytes seen, and one more.
pub extended :
    (xs ys seen : Bytes) (b : ℕ) → xs ++ ys ≡ seen → xs ++ (ys ++ b ∷ []) ≡ seen ++ b ∷ []
extended xs ys seen b e = sym (append_assoc xs ys (b ∷ [])) ∙ ap (λ (t : Bytes). t ++ b ∷ []) e

pub all_white-append :
    (xs : Bytes) (b : ℕ)
    → all_white xs ≡ true
    → is_whitespace b ≡ true
    → all_white (xs ++ b ∷ []) ≡ true
all_white-append [] b h k = rw k
all_white-append (x ∷ xs) b h k = ground (arith, all_white-append xs b)

pub Ended-white :
    (seen : Bytes) (b : ℕ) → is_whitespace b ≡ true → Ended seen → Ended (seen ++ b ∷ [])
Ended-white seen b white e = record {
  before = e.before;
  line_end = e.line_end;
  white = e.white ++ b ∷ [];
  is_line_end = e.is_line_end;
  is_white = all_white-append e.white b e.is_white white;
  at_item = e.at_item;
  split = extended e.before (codes "%%EOF" ++ e.line_end ∷ e.white) seen b e.split;
}

pub take_next :
    (xs : Bytes) (i b : ℕ)
    → i < length xs
    → b ≡ get_or xs i 0
    → take i xs ++ b ∷ [] ≡ take (suc i) xs
take_next [] i b h e = absurd (omega arith)
take_next (x ∷ xs) zero b h e = rw e
take_next (x ∷ xs) (suc i) b h e = ap (◌∷◌ x) (take_next xs i b (omega arith) e)

pub Begun-Plain :
    (st : State) (seen : Bytes)
    → Plain st
    → (rest : Bytes) × (magic_bytes ++ rest ≡ seen)
    → Begun st seen
Begun-Plain (magic matched) seen l r = elim l [ ]
Begun-Plain (comment line len) seen l r = r
Begun-Plain _ seen l r = r

pub Commented-Plain : (st : State) (seen : Bytes) → Plain st → Commented st seen
Commented-Plain (comment line len) seen l = elim l [ ]
Commented-Plain _ seen l = tt

pub later-Past :
    (st : State) (w : Walker) (b : ℕ) (seen : Bytes)
    → Plain st
    → st ≢ item
    → (rest : Bytes) × (magic_bytes ++ rest ≡ seen)
    → Past st w.eof_last seen
    → Ensures (PastOf (seen ++ b ∷ [])) (step st w b)
later-Past st w b seen l n (rest, r) p =
    Ensures-weaken Moves (PastOf (seen ++ b ∷ [])) (step st w b)
      (λ v m. record {
        begun =
            Begun-Plain v.state (seen ++ b ∷ []) m.0
              (rest ++ b ∷ [], extended magic_bytes rest seen b r);
        commented = Commented-Plain v.state (seen ++ b ∷ []) m.0;
        ended = λ e. cc;
      })
      (later-Moves st w b l n (eof_off st w.eof_last seen p n))
