-- ===== src/MediaType/Normal.antt =====
-- Media types in normal form.
use async_chunker.Constants.{max_media_type_name_bytes, max_media_type_parameters}
use async_chunker.MediaType.Cursor.{is_restricted_name_byte, is_token, all_bytes}
use async_chunker.MediaType.Parse.{first_is_alphanumeric, seen, precedes}
use async_chunker.MediaType.{MediaType, Parameter, to_ascii_lowercase}
use async_chunker.Prelude.{◌≤◌, ◌≡◌, true, false, List, [], ◌∷◌, ◌++◌, Bytes, All, length}

-- A type or subtype.
pub record Name (name : Bytes) : Type 0 where
  pub first : first_is_alphanumeric name ≡ true
  pub restricted : all_bytes is_restricted_name_byte name ≡ true
  pub size : length name ≤ max_media_type_name_bytes
  pub lowered : to_ascii_lowercase name ≡ name

pub record Written (p : Parameter) : Type 0 where
  pub token : is_token p.name ≡ true
  pub lowered : to_ascii_lowercase p.name ≡ p.name

-- No name is among those before it.
abbrev pub Unseen : List Parameter → List Parameter → Type 0
Unseen before [] = Unit
Unseen before (p ∷ ps) = (seen p.name before ≡ false) × Unseen (before ++ p ∷ []) ps

abbrev pub Ordered : List Parameter → Type 0
Ordered [] = Unit
Ordered (p ∷ []) = Unit
Ordered (p ∷ q ∷ ps) = (precedes p.name q.name ≡ true) × Ordered (q ∷ ps)

pub record Normal (m : MediaType) : Type 0 where
  pub top : Bytes
  pub sub : Bytes
  pub essence : m.essence ≡ top ++ b'/' ∷ sub
  pub slash : m.slash ≡ length top
  pub top_name : Name top
  pub sub_name : Name sub
  pub written : All Written m.parameters
  pub distinct : Unseen [] m.parameters
  pub ordered : Ordered m.parameters
  pub few : length m.parameters ≤ max_media_type_parameters
