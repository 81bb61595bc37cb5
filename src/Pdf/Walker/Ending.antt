-- ===== src/Pdf/Walker/Ending.antt =====
-- What a document must begin and end with.
use async_chunker.Pdf.Object.{is_whitespace, is_line_end, is_digit}
use async_chunker.Pdf.Walker.Past.{
  Ended, Commented, Past, PastOf, eof_off, extended, Ended-white, take_next, Begun-Plain,
  Commented-Plain, later-Past,
}
use async_chunker.Pdf.Walker.{
  State, magic, item, comment, obj_header, item_keyword, Walker, W, new, step, consume, counted,
  finish, magic_bytes, end_in,
}
use async_chunker.Pdf.Walker.Taken.{AtItem, taken, taken-append, taken_one}
use async_chunker.Pdf.Walker.Later.{Plain}
use async_chunker.Prelude.Text.{codes, bytes_eq, bytes_eq_iff}
use async_chunker.Prelude.{
  ℕ, suc, ◌+◌, ◌<◌, ◌≡◌, refl, sym, ap, ◌∙◌, Bool, true, false, ◌&&◌, ◌||◌, [], ◌∷◌, ◌++◌, arith,
  Option, some, ltb, Bytes, if◌then◌else◌, ◌==◌, take, get_or, ==_iff, if_cases,
}
use async_chunker.Result.{ok, err, Ensures}

-- The magic, one byte further.
magic_further :
    (matched b : ℕ) (seen : Bytes)
    → matched < 5
    → take matched magic_bytes ≡ seen
    → b ≡ get_or magic_bytes matched 0
    → take (matched + 1) magic_bytes ≡ seen ++ b ∷ []
magic_further matched b seen h e k =
    let one_on : matched + 1 ≡ suc matched = omega arith in
    ap (λ (n : ℕ). take n magic_bytes) one_on
    ∙ sym (take_next magic_bytes matched b h k)
    ∙ ap (λ (t : Bytes). t ++ b ∷ []) e

magic-Past :
    (matched : ℕ) (w : Walker) (b : ℕ) (seen : Bytes)
    → Past (magic matched) w.eof_last seen
    → Ensures (PastOf (seen ++ b ∷ [])) (step (magic matched) w b)
unfolding step
magic-Past matched w b seen p =
    let off = eof_off (magic matched) w.eof_last seen p (λ e. cc) in
    if_cases (Ensures (PastOf (seen ++ b ∷ []))) (b == get_or magic_bytes matched 0) _ _
      (λ here.
        let further = magic_further matched b seen p.begun.0 p.begun.1 ((==_iff b _).0 here) in
        if_cases (λ (st : State). Past st w.eof_last (seen ++ b ∷ [])) (matched + 1 == 5) _ _
          (λ last. record {
            begun = ([], ap (λ (n : ℕ). take n magic_bytes) (sym ((==_iff _ 5).0 last)) ∙ further);
            commented = tt;
            ended = λ e. cc;
          })
          (λ more. record {
            begun = (let b = p.begun.0 in ground arith, further);
            commented = tt;
            ended = λ e. cc;
          }))
      (λ _. tt)

Ended-comment :
    (line : Bytes) (len b : ℕ) (seen : Bytes)
    → is_line_end b ≡ true
    → Commented (comment line len) seen
    → (len == 5 && bytes_eq line (codes "%%EOF")) ≡ true
    → Ended (seen ++ b ∷ [])
Ended-comment line len b seen h c e =
    let (before, start, at_item) = c (ground arith) in
    let same : line ≡ codes "%%EOF" = (bytes_eq_iff line (codes "%%EOF")).0 (ground arith) in
    record {
      before = before;
      line_end = b;
      white = [];
      is_line_end = h;
      is_white = refl;
      at_item = at_item;
      split = extended before (codes "%%EOF") seen b (ap (◌++◌ before) (sym same) ∙ start);
    }

Commented-further :
    (line : Bytes) (len b : ℕ) (seen : Bytes)
    → Commented (comment line len) seen
    → Commented (comment (if ltb len 5 then line ++ b ∷ [] else line) (len + 1)) (seen ++ b ∷ [])
Commented-further line len b seen c h =
    let (before, start, at_item) = c (omega arith) in
    let short : ltb len 5 ≡ true = ground arith in
    rw short (before, extended before line seen b start, at_item)

comment-Past :
    (line : Bytes) (len : ℕ) (w : Walker) (b : ℕ) (seen : Bytes)
    → Past (comment line len) w.eof_last seen
    → Ensures (PastOf (seen ++ b ∷ [])) (step (comment line len) w b)
unfolding step
comment-Past line len w b seen p =
    let off = eof_off (comment line len) w.eof_last seen p (λ e. cc) in
    let begun : (rest : Bytes) × (magic_bytes ++ rest ≡ seen ++ b ∷ []) =
      (p.begun.0 ++ b ∷ [], extended magic_bytes p.begun.0 seen b p.begun.1) in
    if_cases (Ensures (PastOf (seen ++ b ∷ []))) (is_line_end b) _ _
      (λ done. record {
        begun = begun;
        commented = tt;
        ended = λ e. (refl, Ended-comment line len b seen done p.commented e);
      })
      (λ more. record {
        begun = begun;
        commented = Commented-further line len b seen p.commented;
        ended = λ e. cc;
      })

fresh-Past :
    (st : State) (seen : Bytes)
    → Plain st
    → (rest : Bytes) × (magic_bytes ++ rest ≡ seen)
    → Past st false seen
fresh-Past st seen l r = record {
  begun = Begun-Plain st seen l r;
  commented = Commented-Plain st seen l;
  ended = λ e. cc;
}

item-Past :
    (w : Walker) (b : ℕ) (seen : Bytes)
    → AtItem seen
    → Past item w.eof_last seen
    → Ensures (PastOf (seen ++ b ∷ [])) (step item w b)
unfolding step
item-Past w b seen at_item p =
    let begun : (rest : Bytes) × (magic_bytes ++ rest ≡ seen ++ b ∷ []) =
      (p.begun.0 ++ b ∷ [], extended magic_bytes p.begun.0 seen b p.begun.1) in
    if_cases (Ensures (PastOf (seen ++ b ∷ []))) (is_whitespace b) _ _
      (λ white. record {
        begun = begun;
        commented = tt;
        ended = λ e. (refl, Ended-white seen b white (p.ended e).1);
      })
      (λ black.
        if_cases (Ensures (PastOf (seen ++ b ∷ []))) (b == b'%') _ _
          (λ comments. record {
            begun = begun;
            commented = λ _.
                (seen, ap (λ (n : ℕ). seen ++ n ∷ []) (sym ((==_iff b b'%').0 comments)), at_item);
            ended = λ e. cc;
          })
          (λ _.
            if_cases (Ensures (PastOf (seen ++ b ∷ []))) (is_digit b) _ _
              (λ _. fresh-Past (obj_header 0 true) _ tt begun)
              (λ _.
                if_cases (Ensures (PastOf (seen ++ b ∷ []))) (b == b'x' || b == b't' || b == b's') _
                  _ (λ _. fresh-Past (item_keyword (b ∷ [])) _ tt begun) (λ _. tt))))

step-Past :
    (st : State) (w : Walker) (b : ℕ) (seen : Bytes)
    → (st ≡ item → AtItem seen)
    → Past st w.eof_last seen
    → Ensures (PastOf (seen ++ b ∷ [])) (step st w b)
step-Past (magic matched) w b seen i p = magic-Past matched w b seen p
step-Past (comment line len) w b seen i p = comment-Past line len w b seen p
step-Past item w b seen i p = item-Past w b seen (i refl) p
step-Past st w b seen i p = later-Past st w b seen tt (λ e. cc) p.begun p

pub new-Past : PastOf [] new
unfolding new
new-Past = record { begun = (omega arith, refl); commented = tt; ended = λ e. cc }

counted-Past :
    (w : Walker) (r : W Walker) (seen : Bytes) (large : Option ℕ)
    → Ensures (PastOf seen) r
    → (counted w r).1 ≡ ok large
    → PastOf seen (counted w r).0
counted-Past w (ok v) seen large p e = record {
  begun = p.begun;
  commented = p.commented;
  ended = p.ended;
}
counted-Past w (err fault) seen large p e = cc

-- The walker that those bytes lead to.
abbrev pub Reached : Bytes → Walker → Type 0
Reached seen w = PastOf seen w × (taken new seen ≡ some w)

pub consume-Past :
    (w : Walker) (b : ℕ) (seen : Bytes) (large : Option ℕ)
    → Reached seen w
    → (consume w b).1 ≡ ok large
    → Reached (seen ++ b ∷ []) (consume w b).0
unfolding consume
consume-Past w b seen large (p, reached) e = (
  counted-Past w (step w.state w b) (seen ++ b ∷ []) large
      (step-Past w.state w b seen (λ here. (w, reached, here)) p) e,
  taken-append new w seen (b ∷ []) reached ∙ taken_one w b large e,
)

-- A document's first five bytes, and its last item.
pub record Framed (bytes : Bytes) : Type 0 where
  pub rest : Bytes
  pub begins : codes "%PDF-" ++ rest ≡ bytes
  pub ends : Ended bytes

end_in-Framed :
    (st : State) (eof_last : Bool) (bytes : Bytes)
    → Past st eof_last bytes
    → end_in st eof_last ≡ ok tt
    → Framed bytes
end_in-Framed item true bytes p e = record {
  rest = p.begun.0;
  begins = p.begun.1;
  ends = (p.ended refl).1;
}
end_in-Framed item false bytes p e = cc
end_in-Framed (comment line len) eof_last bytes p e = cc
end_in-Framed _ eof_last bytes p e = cc

pub finish-Framed : (w : Walker) (bytes : Bytes) → PastOf bytes w → finish w ≡ ok tt → Framed bytes
unfolding finish
finish-Framed w bytes p e = end_in-Framed w.state w.eof_last bytes p e
