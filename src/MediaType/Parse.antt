-- ===== src/MediaType/Parse.antt =====
-- src/media_type/parse.rs: the parser.
use async_chunker.Constants.{max_media_type_name_bytes, max_media_type_parameters}
use async_chunker.Errors.{
  MediaTypeError, empty, missing_slash, invalid_top_level, invalid_subtype, name_too_long,
  duplicate_parameter, too_many_parameters,
}
use async_chunker.MediaType.Cursor.{
  R, is_ascii_alphanumeric, is_restricted_name_byte, is_space, Cursor, malformed, run,
  skip_whitespace, expect, token, value,
}
use async_chunker.MediaType.{MediaType, Parameter, to_ascii_lowercase}
use async_chunker.Prelude.Text.{bytes_eq}
use async_chunker.Prelude.{
  ℕ, zero, suc, ◌+◌, ◌-◌, Bool, true, false, not, ◌&&◌, ◌||◌, Option, none, some, String, List, [],
  ◌∷◌, ◌++◌, ltb, ◌==◌, if◌then◌else◌, Bytes, length, is_empty,
}
use async_chunker.Result.{ok, err, ◌>>=◌, ok_or}

-- `trim_start_matches` and `trim_end_matches` of spaces and tabs
abbrev pub trim_start : Bytes → Bytes
trim_start text = (run is_space text).1

abbrev pub trim_end : Bytes → Bytes
trim_end [] = []
trim_end (b ∷ bs) = if is_space b && is_empty (trim_end bs) then [] else b ∷ trim_end bs

-- What stands before the first such byte, and what follows it; the index that `find` gives is the length
-- of the first part.
abbrev pub split_at : ℕ → Bytes → Option (Bytes × Bytes)
split_at byte [] = none
split_at byte (b ∷ bs) =
    if b == byte
    then some ([], bs)
    else elim (split_at byte bs) [ none ↦ none | some (before, after) ↦ some (b ∷ before, after) ]

-- The index of the first byte that fails the test.
abbrev pub position_not : (ℕ → Bool) → Bytes → Option ℕ
position_not p [] = none
position_not p (b ∷ bs) =
    if p b then (elim (position_not p bs) [ none ↦ none | some i ↦ some (suc i) ]) else some 0

abbrev pub first_is_alphanumeric : Bytes → Bool
first_is_alphanumeric [] = false
first_is_alphanumeric (b ∷ bs) = is_ascii_alphanumeric b

abbrev pub all_restricted : Option ℕ → ℕ → (ℕ → MediaTypeError) → R (Unit {0})
all_restricted none offset invalid = ok tt
all_restricted (some index) offset invalid = err (invalid (offset + index))

unfoldable pub check_restricted_name : Bytes → ℕ → String → (ℕ → MediaTypeError) → R (Unit {0})
unfolding is_restricted_name_byte
check_restricted_name name offset component invalid =
    if ltb max_media_type_name_bytes (length name)
    then err (name_too_long component max_media_type_name_bytes)
    else if not (first_is_alphanumeric name)
    then err (invalid offset)
    else all_restricted (position_not is_restricted_name_byte name) offset invalid

-- Whether a parameter of that name was read before.
unfoldable pub seen : Bytes → List Parameter → Bool
unfolding bytes_eq
seen name [] = false
seen name (p ∷ ps) = bytes_eq p.name name || seen name ps

unfoldable pub add : List Parameter → Bytes → Bytes → R (List Parameter)
add ps name value =
    if seen name ps
    then err (duplicate_parameter name)
    else if length ps == max_media_type_parameters
    then err (too_many_parameters max_media_type_parameters)
    else ok (ps ++ record { name = name; value = value } ∷ [])

-- One parameter, behind those read before it.
pub record Read : Type 0 where
  pub parameters : List Parameter
  pub cursor : Cursor

-- A round of the loop of `parse_parameters`, but for its end.
unfoldable pub read_parameter : Cursor → List Parameter → R Read
read_parameter cursor ps = do
  name ← token (skip_whitespace cursor)
  equals ← expect name.cursor b'='
  v ← value equals
  next ← add ps (to_ascii_lowercase name.text) v.text
  ok (record { parameters = next; cursor = skip_whitespace v.cursor })

-- The loop, where every round consumes a byte at least.
unfoldable pub read_parameters : ℕ → Cursor → List Parameter → R (List Parameter)
read_parameters zero cursor ps = malformed cursor
read_parameters (suc fuel) cursor ps = do
  r ← read_parameter cursor ps
  if is_empty r.cursor.rest
      then ok r.parameters
      else (expect r.cursor b';' >>= λ next. read_parameters fuel next r.parameters)

-- `cmp` on strings: the order of their bytes.
abbrev pub precedes : Bytes → Bytes → Bool
precedes [] ys = true
precedes (x ∷ xs) [] = false
precedes (x ∷ xs) (y ∷ ys) = ltb x y || (x == y && precedes xs ys)

-- `sort_by`, which is stable.
abbrev pub insert : Parameter → List Parameter → List Parameter
insert p [] = p ∷ []
insert p (q ∷ qs) = if precedes p.name q.name then p ∷ q ∷ qs else q ∷ insert p qs

abbrev pub sort : List Parameter → List Parameter
sort [] = []
sort (p ∷ ps) = insert p (sort ps)

unfoldable pub parse_parameters : Bytes → ℕ → R (List Parameter)
parse_parameters text base =
    read_parameters (suc (length text)) (record { rest = text; offset = base }) [] >>= λ ps.
    ok (sort ps)

-- `parse_parameters` where there are any.
unfoldable pub parse_optional : Option (Bytes × ℕ) → R (List Parameter)
parse_optional none = ok []
parse_optional (some (text, offset)) = parse_parameters text offset

-- `parse` behind the splits of the text.
unfoldable pub parse_parts : Bytes → Option (Bytes × ℕ) → ℕ → R MediaType
parse_parts essence parameters base = do
  slash ← ok_or (split_at b'/' essence) missing_slash
  _ ← check_restricted_name slash.0 base "type" invalid_top_level
  _ ← check_restricted_name slash.1 (base + length slash.0 + 1) "subtype" invalid_subtype
  ps ← parse_optional parameters
  ok (record { essence = to_ascii_lowercase essence; slash = length slash.0; parameters = ps })

unfoldable pub parse_split : Bytes → Option (Bytes × Bytes) → ℕ → R MediaType
parse_split trimmed none base = parse_parts (trim_end trimmed) none base
parse_split trimmed (some (essence, text)) base =
    parse_parts (trim_end essence) (some (text, base + length essence + 1)) base

unfoldable pub parse : Bytes → R MediaType
parse input =
    let started = trim_start input in
    let trimmed = trim_end started in
    if is_empty trimmed
    then err empty
    else parse_split trimmed (split_at b';' trimmed) (length input - length started)
