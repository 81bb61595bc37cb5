-- ===== src/MediaType.antt =====
-- src/media_type/mod.rs: parsed, normalized media types. A text is its UTF-8 bytes.
pub mod Cursor
pub mod Parse
pub mod Display
pub mod Tokens
pub mod Normal
pub mod RoundTrip
pub mod Essence
pub mod Canonical
pub mod Fuel
use async_chunker.Prelude.{
  ℕ, ◌+◌, Bool, true, false, not, ◌&&◌, Option, none, some, List, [], ◌∷◌, leb, ◌==◌, if◌then◌else◌,
  Bytes, map, take, drop, is_empty,
}
use async_chunker.Prelude.Text.{bytes_eq}

pub record Parameter : Type 0 where
  pub name : Bytes
  pub value : Bytes

pub record MediaType : Type 0 where
  pub essence : Bytes
  pub slash : ℕ
  pub parameters : List Parameter

-- `to_ascii_lowercase` of a byte
abbrev pub lower : ℕ → ℕ
lower b = if leb 65 b && leb b 90 then b + 32 else b

abbrev pub to_ascii_lowercase : Bytes → Bytes
to_ascii_lowercase = map lower

unfoldable pub top_level : MediaType → Bytes
top_level m = take m.slash m.essence

unfoldable pub subtype : MediaType → Bytes
subtype m = drop (m.slash + 1) m.essence

-- What follows the last `+`.
after_plus : Bytes → Option Bytes
after_plus [] = none
after_plus (b ∷ bs) = elim (after_plus bs) [
  | some suffix ↦ some suffix
  | none ↦ if b == b'+' then some bs else none
]

unfoldable pub structured_suffix : MediaType → Option Bytes
unfolding after_plus subtype
structured_suffix m = after_plus (subtype m)

-- `find` on the parameters, with `eq_ignore_ascii_case`
find_parameter : Bytes → List Parameter → Option Bytes
unfolding bytes_eq
find_parameter name [] = none
find_parameter name (p ∷ ps) =
    let rest = find_parameter name ps in
    if bytes_eq (to_ascii_lowercase p.name) (to_ascii_lowercase name) then some p.value else rest

unfoldable pub parameter : MediaType → Bytes → Option Bytes
unfolding find_parameter
parameter m name = find_parameter name m.parameters
