-- ===== src/MediaType/Cursor.antt =====
-- src/media_type/parse.rs: the classes of bytes, and the cursor over the parameters.
use async_chunker.Errors.{MediaTypeError, malformed_parameter}
use async_chunker.Prelude.{
  ℕ, ◌+◌, Bool, true, false, not, ◌&&◌, ◌||◌, [], ◌∷◌, ◌++◌, leb, ◌==◌, if◌then◌else◌, Bytes,
  length, is_empty,
}
use async_chunker.Prelude.Text.{codes}
use async_chunker.Result.{Result, ok, err}

abbrev pub R : Type 0 → Type 0
R = Result MediaTypeError

abbrev pub is_ascii_alphanumeric : ℕ → Bool
is_ascii_alphanumeric b =
    (leb 48 b && leb b 57) || (leb 65 b && leb b 90) || (leb 97 b && leb b 122)

-- A `matches!` on the byte.
abbrev pub matches : ℕ → Bytes → Bool
matches b [] = false
matches b (c ∷ cs) = b == c || matches b cs

unfoldable pub is_restricted_name_byte : ℕ → Bool
is_restricted_name_byte b = is_ascii_alphanumeric b || matches b (codes "!#$&-^_.+")

unfoldable pub is_token_byte : ℕ → Bool
is_token_byte b = is_ascii_alphanumeric b || matches b (codes "!#$%&'*+-.^_`|~")

-- `bytes().all`
abbrev pub all_bytes : (ℕ → Bool) → Bytes → Bool
all_bytes p [] = true
all_bytes p (b ∷ bs) = p b && all_bytes p bs

unfoldable pub is_token : Bytes → Bool
unfolding is_token_byte
is_token text = not (is_empty text) && all_bytes is_token_byte text

abbrev pub is_space : ℕ → Bool
is_space b = b == b' ' || b == 9

-- What is left of the text, and its offset in the input, `base + pos`.
pub record Cursor : Type 0 where
  pub rest : Bytes
  pub offset : ℕ

abbrev pub malformed : {A : Type 0} → Cursor → R A
malformed c = err (malformed_parameter c.offset)

-- A run of bytes, and what follows it.
abbrev pub run : (ℕ → Bool) → Bytes → Bytes × Bytes
run p [] = ([], [])
run p (b ∷ bs) = if p b then (b ∷ (run p bs).0, (run p bs).1) else ([], b ∷ bs)

unfoldable pub skip_whitespace : Cursor → Cursor
skip_whitespace c =
    let (spaces, rest) = run is_space c.rest in
    record { rest = rest; offset = c.offset + length spaces }

-- `expect`, on the text that is left.
unfoldable pub expect_in : Bytes → ℕ → ℕ → R Cursor
expect_in [] offset byte = err (malformed_parameter offset)
expect_in (b ∷ bs) offset byte =
    if b == byte
    then ok (record { rest = bs; offset = offset + 1 })
    else err (malformed_parameter offset)

unfoldable pub expect : Cursor → ℕ → R Cursor
unfolding expect_in
expect c byte = expect_in c.rest c.offset byte

-- A part of the text, and the cursor behind it.
pub record Taken : Type 0 where
  pub text : Bytes
  pub cursor : Cursor

unfoldable pub token : Cursor → R Taken
unfolding is_token_byte
token c =
    let (text, rest) = run is_token_byte c.rest in
    if is_empty text
    then malformed c
    else ok
        (record { text = text; cursor = record { rest = rest; offset = c.offset + length text } })

-- The loop of `value`, at an offset and behind what was unescaped; a backslash at the end of the text is
-- reported where the quoted string began.
unfoldable pub quoted : ℕ → Bytes → ℕ → Bytes → R Taken
quoted start [] offset value = err (malformed_parameter offset)
quoted start (b ∷ []) offset value =
    if b == b'"'
    then ok (record { text = value; cursor = record { rest = []; offset = offset + 1 } })
    else if b == b'\\'
    then err (malformed_parameter start)
    else err (malformed_parameter (offset + 1))
quoted start (b ∷ c ∷ bs) offset value =
    let unescaped = quoted start bs (offset + 2) (value ++ c ∷ []) in
    let plain = quoted start (c ∷ bs) (offset + 1) (value ++ b ∷ []) in
    if b == b'"'
    then ok (record { text = value; cursor = record { rest = c ∷ bs; offset = offset + 1 } })
    else if b == b'\\'
    then unescaped
    else plain

-- `value`, on the text that is left.
unfoldable pub value_in : Bytes → ℕ → R Taken
unfolding token quoted
value_in [] offset = token (record { rest = []; offset = offset })
value_in (b ∷ bs) offset =
    if b == b'"'
    then quoted (offset + 1) bs (offset + 1) []
    else token (record { rest = b ∷ bs; offset = offset })

unfoldable pub value : Cursor → R Taken
unfolding value_in
value c = value_in c.rest c.offset
