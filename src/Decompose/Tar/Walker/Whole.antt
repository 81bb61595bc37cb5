-- ===== src/Decompose/Tar/Walker/Whole.antt =====
-- A member from its header to its padding.
use async_chunker.Decompose.Tar.Fields.{block_len, field, parse_octal, checksum_matches}
use async_chunker.Decompose.Tar.Walker.{
  TarEntry, TarEvent, nothing, entry, member_bytes, regular, State, header, TarWalker, padding_of,
  header_path, or_field, to_u32,
}
use async_chunker.Prelude.{
  ℕ, ◌+◌, ◌≡◌, none, some, List, [], ◌∷◌, ◌++◌, length, Bytes, replicate, get_or, true,
}

abbrev collecting : TarWalker → Bytes → ℕ → TarWalker
collecting w block n = record w { state = header; block = block; offset = n }

abbrev onward : TarWalker → TarWalker
onward w = record w { offset = w.offset + 1 }

-- What the header of a regular member of that size says, under the pending overrides.
abbrev pub member_entry : TarWalker → Bytes → ℕ → TarEntry
member_entry w block size = record {
  path = or_field w.overrides.path (header_path block);
  kind = regular;
  size = size;
  mode = to_u32 (parse_octal (field block 100 108));
  mtime = parse_octal (field block 136 148);
}

-- The walker with an entry seen, and its overrides taken.
abbrev pub entered : TarWalker → State → ℕ → TarWalker
entered w s n = record w {
  state = s;
  offset = n;
  saw_entry = true;
  overrides = record w.overrides { path = none; link = none; size = none };
}

-- A header block that declares a regular member of that size.
abbrev pub IsMemberHeader : Bytes → ℕ → Type 0
IsMemberHeader block size =
    (length block ≡ block_len)
    × (checksum_matches block ≡ true)
    × (parse_octal (field block 124 136) ≡ some size)
    × (get_or block 156 0 ≡ b'0')

-- A member taken whole: the walker is back at a header at that offset, and what it reported, behind so many
-- bytes that reported nothing.
abbrev pub taken : TarWalker → Bytes → ℕ → ℕ → ℕ → TarWalker × List TarEvent
taken w block size n silent = (
  record (entered w header n) { block = [] },
  replicate silent nothing
      ++ entry (member_entry w block size)
        ∷ (replicate size (member_bytes 1) ++ replicate (padding_of size) nothing),
)
