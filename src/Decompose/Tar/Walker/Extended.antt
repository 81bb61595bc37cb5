-- ===== src/Decompose/Tar/Walker/Extended.antt =====
-- Extended headers.
use async_chunker.Decompose.Tar.Pax.Records.{
  written, IsRecord, set_keys, records_read, written-long,
}
use async_chunker.Decompose.Tar.Pax.{W, Overrides}
use async_chunker.Decompose.Tar.Walker.{pax_next, apply_override, pax_result}
use async_chunker.Prelude.{ℕ, ◌≡◌, ap, Option, List, [], Bytes, All, length}

-- An extended header whose buffer holds records as they are written, each with its own length in decimal digits
-- and a key without `=`, sets the keys in turn, up to the first that fails, and empties the buffer.
pub extended_header :
    (o : Overrides) (offset : ℕ) (records : List (Bytes × Bytes × Bytes))
    → All IsRecord records
    → apply_override (record o { buffer = written records }) offset pax_next
      ≡ set_keys (record o { buffer = [] }) offset records
unfolding apply_override
extended_header o offset records h =
    ap (λ (r : Option (W Overrides)). pax_result r (record o { buffer = written records }))
      (records_read (length (written records)) (record o { buffer = [] }) offset records h
        (written-long records))
