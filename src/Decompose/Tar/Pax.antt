-- ===== src/Decompose/Tar/Pax.antt =====
-- src/decompose/tar.rs: the overrides of the next header, and the pax records that carry them. The fuel
-- of the loop over the records is their length: each takes two bytes at least.
pub mod Records
pub mod Names
use async_chunker.Decompose.Fault.{OpaqueReason, malformed}
use async_chunker.Prelude.Text.{bytes_eq, codes}
use async_chunker.Prelude.Words.{parse_u64}
use async_chunker.Prelude.{
  ℕ, zero, suc, ◌+◌, ◌-◌, ◌||◌, String, Option, none, some, [], ◌∷◌, ltb, leb, ◌==◌, if◌then◌else◌,
  Bytes, length, take, drop, is_empty,
}
use async_chunker.Result.{Result, ok, err, ◌>>=◌, ok_or}

abbrev pub W : Type 0 → Type 0
W = Result OpaqueReason

pub record Overrides : Type 0 where
  pub path : Option Bytes
  pub link : Option Bytes
  pub size : Option ℕ
  pub buffer : Bytes

abbrev pub no_overrides : Overrides
no_overrides = record { path = none; link = none; size = none; buffer = [] }

abbrev next_place : Option ℕ → Option ℕ
next_place none = none
next_place (some n) = some (n + 1)

-- `position(|byte| *byte == b)`
unfoldable pub position : ℕ → Bytes → Option ℕ
position b [] = none
position b (x ∷ xs) = let rest = position b xs in if x == b then some 0 else next_place rest

abbrev pub keep : ℕ → Option Bytes → Option Bytes
keep b none = none
keep b (some bs) = some (b ∷ bs)

-- `strip_suffix(b"\n")`
unfoldable pub strip_newline : Bytes → Option Bytes
strip_newline [] = none
strip_newline (b ∷ []) = if b == 10 then some [] else none
strip_newline (b ∷ c ∷ bs) = keep b (strip_newline (c ∷ bs))

abbrev sized : Overrides → ℕ → Option ℕ → W Overrides
sized o offset none = err (malformed "pax size is not decimal" offset)
sized o offset (some size) = ok (record o { size = some size })

-- The match on a record's key.
unfoldable pub set_key : Overrides → ℕ → Bytes → Bytes → W Overrides
unfolding bytes_eq parse_u64
set_key o offset key value =
    if bytes_eq key (codes "path")
    then ok (record o { path = some value })
    else if bytes_eq key (codes "linkpath")
    then ok (record o { link = some value })
    else if bytes_eq key (codes "size")
    then sized o offset (parse_u64 value)
    else ok o

-- One record's bytes, between its length and its end.
unfoldable pub apply_record : Overrides → ℕ → Bytes → W Overrides
unfolding strip_newline position set_key
apply_record o offset bytes = do
  body ← ok_or (strip_newline bytes) (malformed "pax record does not end in newline" offset)
  eq ← ok_or (position b'=' body) (malformed "pax record has no '='" offset)
  set_key o offset (take eq body) (drop (eq + 1) body)

-- The length that a record declares, and the place behind the space.
unfoldable pub record_len : ℕ → Bytes → W (ℕ × ℕ)
unfolding position parse_u64
record_len offset rest = do
  space ← ok_or (position b' ' rest) (malformed "pax record has no length" offset)
  len ← ok_or (parse_u64 (take space rest)) (malformed "pax record length is not decimal" offset)
  if leb len (space + 1) || ltb (length rest) len
      then err (malformed "pax record length out of range" offset)
      else ok (len, space + 1)

-- One round of the loop: the overrides, and the records left.
unfoldable pub pax_round : Overrides → ℕ → Bytes → W (Overrides × Bytes)
unfolding record_len apply_record
pax_round o offset rest = do
  r ← record_len offset rest
  next ← apply_record o offset (take (r.0 - r.1) (drop r.1 rest))
  ok (next, drop r.0 rest)

-- `none` means that the fuel ran out.
unfoldable pub pax_loop : ℕ → Overrides → ℕ → Bytes → Option (W Overrides)
pax_loop fuel o offset [] = some (ok o)
pax_loop zero o offset (b ∷ bs) = none
pax_loop (suc fuel) o offset (b ∷ bs) = elim (pax_round o offset (b ∷ bs)) [
  | ok r ↦ pax_loop fuel r.0 offset r.1
  | err fault ↦ some (err fault)
]
