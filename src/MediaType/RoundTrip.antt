-- ===== src/MediaType/RoundTrip.antt =====
-- Parsing what was rendered.
use async_chunker.Constants.{max_media_type_parameters}
use async_chunker.MediaType.Cursor.{is_token_byte, is_token, is_space, expect, expect_in}
use async_chunker.MediaType.Display.{value_text, parameters_text}
use async_chunker.MediaType.Normal.{Written, Unseen, Ordered}
use async_chunker.MediaType.Parse.{
  seen, add, read_parameter, read_parameters, insert, sort, parse_parameters,
}
use async_chunker.MediaType.Tokens.{differs, Stops, skip-Stops, token-all, value-text}
use async_chunker.MediaType.{Parameter}
use async_chunker.Prelude.{
  ℕ, zero, suc, ◌+◌, ◌≤◌, ◌<◌, ◌≡◌, refl, ap, ◌∙◌, true, false, List, [], ◌∷◌, ◌++◌, arith, ◌==◌,
  Bytes, All, length, length-append, append_assoc,
}
use async_chunker.Result.{ok}

pub no_space : (b : ℕ) → is_token_byte b ≡ true → is_space b ≡ false
unfolding is_token_byte
no_space b t =
    let blank = differs is_token_byte b' ' b refl t in
    let tab = differs is_token_byte 9 b refl t in ground arith

token_starts : (name rest : Bytes) → is_token name ≡ true → Stops is_space (name ++ rest)
unfolding is_token
token_starts [] rest t = ground arith
token_starts (b ∷ bs) rest t = let here : is_token_byte b ≡ true = ground arith in no_space b here

-- What follows a rendered parameter.
token-Stops : (ps : List Parameter) → Stops is_token_byte (parameters_text ps)
unfolding parameters_text is_token_byte
token-Stops [] = tt
token-Stops (p ∷ ps) = refl

space-Stops : (ps : List Parameter) → Stops is_space (parameters_text ps)
unfolding parameters_text
space-Stops [] = tt
space-Stops (p ∷ ps) = refl

equals_no_token : is_token_byte b'=' ≡ false
unfolding is_token_byte
equals_no_token = refl

below : (n m : ℕ) → n < m → (n == m) ≡ false
below n m h = ground arith

-- A parameter and those behind it, without the separator in front.
abbrev pub unseparated : Parameter → List Parameter → Bytes
unseparated p ps = p.name ++ (b'=' ∷ (value_text p.value ++ parameters_text ps))

read_parameter-text :
    (p : Parameter) (ps before : List Parameter) (offset : ℕ)
    → Written p
    → seen p.name before ≡ false
    → length before < max_media_type_parameters
    → (after : ℕ) × (read_parameter (record { rest = unseparated p ps; offset = offset }) before
        ≡ ok (record {
          parameters = before ++ p ∷ [];
          cursor = record { rest = parameters_text ps; offset = after };
        }))
unfolding read_parameter expect expect_in add
read_parameter-text p ps before offset w u h =
    let behind = b'=' ∷ (value_text p.value ++ parameters_text ps) in
    let skipped = skip-Stops (unseparated p ps) offset (token_starts p.name behind w.token) in
    let name = token-all p.name behind offset w.token equals_no_token in
    let value =
      value-text p.value (parameters_text ps) (offset + length p.name + 1) (token-Stops ps) in
    let room = below (length before) max_media_type_parameters h in
    let after = offset + length p.name + 1 + length (value_text p.value) in
    (
      after,
      rw
          (
            skipped,
            name,
            value,
            w.lowered,
            u,
            room,
            skip-Stops (parameters_text ps) after (space-Stops ps),
          )
          refl,
    )

parameters_text-length : (ps : List Parameter) → length ps ≤ length (parameters_text ps)
unfolding parameters_text
parameters_text-length [] = omega arith
parameters_text-length (p ∷ ps) =
    let name = length-append p.name (b'=' ∷ (value_text p.value ++ parameters_text ps)) in
    let value = length-append (value_text p.value) (parameters_text ps) in
    let rest = parameters_text-length ps in omega (arith, name, value, rest)

read_parameters-text :
    (p : Parameter) (ps before : List Parameter) (offset fuel : ℕ)
    → length ps < fuel
    → All Written (p ∷ ps)
    → Unseen before (p ∷ ps)
    → length before + length (p ∷ ps) ≤ max_media_type_parameters
    → read_parameters fuel (record { rest = unseparated p ps; offset = offset }) before
      ≡ ok (before ++ p ∷ ps)
unfolding read_parameters parameters_text expect expect_in
read_parameters-text p ps before offset zero f w u h = absurd (omega arith)
read_parameters-text p [] before offset (suc fuel) f (w, ws) (u, us) h =
    let (after, first) = read_parameter-text p [] before offset w u (omega arith) in rw first refl
read_parameters-text p (q ∷ qs) before offset (suc fuel) f (w, ws) (u, us) h =
    let (after, first) = read_parameter-text p (q ∷ qs) before offset w u (omega arith) in
    let longer = length-append before (p ∷ []) in
    rw first (
      read_parameters-text q qs (before ++ p ∷ []) (after + 1) fuel (omega arith) ws us
        (omega (arith, longer))
      ∙ ap ok (append_assoc before (p ∷ []) (q ∷ qs)))

insert-first : (p : Parameter) (ps : List Parameter) → Ordered (p ∷ ps) → insert p ps ≡ p ∷ ps
insert-first p [] o = refl
insert-first p (q ∷ qs) (o, os) = rw o refl

sort-Ordered : (ps : List Parameter) → Ordered ps → sort ps ≡ ps
sort-Ordered [] o = refl
sort-Ordered (p ∷ []) o = refl
sort-Ordered (p ∷ q ∷ ps) (o, os) =
    ap (insert p) (sort-Ordered (q ∷ ps) os) ∙ insert-first p (q ∷ ps) (o, os)

pub parse_parameters-text :
    (p : Parameter) (ps : List Parameter) (offset : ℕ)
    → All Written (p ∷ ps)
    → Unseen [] (p ∷ ps)
    → Ordered (p ∷ ps)
    → length (p ∷ ps) ≤ max_media_type_parameters
    → parse_parameters (unseparated p ps) offset ≡ ok (p ∷ ps)
unfolding parse_parameters
parse_parameters-text p ps offset w u o h =
    let name = length-append p.name (b'=' ∷ (value_text p.value ++ parameters_text ps)) in
    let value = length-append (value_text p.value) (parameters_text ps) in
    let count = parameters_text-length ps in
    let all =
      read_parameters-text p ps [] offset (suc (length (unseparated p ps)))
        (omega (arith, name, value, count)) w u (omega arith) in
    rw (all, sort-Ordered (p ∷ ps) o) refl
