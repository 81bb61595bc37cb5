-- ===== src/MediaType/Display.antt =====
-- src/media_type/mod.rs: `Display`, the canonical rendering.
use async_chunker.MediaType.Cursor.{is_token}
use async_chunker.MediaType.{MediaType, Parameter}
use async_chunker.Prelude.{◌||◌, List, [], ◌∷◌, ◌++◌, ◌==◌, if◌then◌else◌, Bytes}

-- The characters of a quoted value, quotes and backslashes escaped.
unfoldable pub escaped : Bytes → Bytes
escaped [] = []
escaped (b ∷ bs) = if b == b'"' || b == b'\\' then b'\\' ∷ b ∷ escaped bs else b ∷ escaped bs

unfoldable pub value_text : Bytes → Bytes
unfolding is_token escaped
value_text value = if is_token value then value else b'"' ∷ escaped value ++ b'"' ∷ []

unfoldable pub parameters_text : List Parameter → Bytes
unfolding value_text
parameters_text [] = []
parameters_text (p ∷ ps) = b';' ∷ (p.name ++ (b'=' ∷ (value_text p.value ++ parameters_text ps)))

unfoldable pub display : MediaType → Bytes
unfolding parameters_text
display m = m.essence ++ parameters_text m.parameters
