-- ===== src/Generic.antt =====
-- src/chunker/generic.rs: the `generic-cdc-v1` chunker, where every byte is a cut candidate.
pub mod Laws
pub mod Stream
use async_chunker.Constants.{chunk_min, chunk_target, chunk_max}
use async_chunker.Gear.{
  Blake3, GearHash, update, cuts, reset, generic_strict_mask, generic_relaxed_mask,
}
use async_chunker.Gear
use async_chunker.Outcome.{Outcome, succeed, emits, feed}
use async_chunker.Prelude.{
  ℕ, Bool, true, false, List, [], ◌∷◌, ◌++◌, ltb, leb, if◌then◌else◌, Bytes, length,
}

pub record GenericCdcChunker : Type 0 where
  pub hash : GearHash
  pub strict_mask : ℕ
  pub relaxed_mask : ℕ
  pub buffer : Bytes

unfoldable pub new : Blake3 → GenericCdcChunker
unfolding Gear.new generic_strict_mask generic_relaxed_mask
new blake3 = record {
  hash = Gear.new blake3 "legra/generic-cdc-v1/gear";
  strict_mask = generic_strict_mask;
  relaxed_mask = generic_relaxed_mask;
  buffer = [];
}

unfoldable pub cut_here : GenericCdcChunker → Bool
unfolding cuts
cut_here c =
    let len = length c.buffer in
    if ltb len chunk_min
    then false
    else if leb chunk_max len
    then true
    else cuts c.hash (if ltb len chunk_target then c.strict_mask else c.relaxed_mask)

abbrev pub cleared : GenericCdcChunker → GenericCdcChunker
cleared c = record c { buffer = []; hash = reset c.hash }

abbrev pub taken : GenericCdcChunker → ℕ → GenericCdcChunker
taken c byte = record c { buffer = c.buffer ++ byte ∷ []; hash = update c.hash byte }

-- The body of the loop in `push`.
unfoldable pub push_byte : GenericCdcChunker → ℕ → Outcome GenericCdcChunker
unfolding cut_here update
push_byte c byte =
    let next = taken c byte in
    if cut_here next then emits (cleared next) (next.buffer ∷ []) else succeed next

unfoldable pub push : GenericCdcChunker → Bytes → Outcome GenericCdcChunker
unfolding push_byte feed
push = feed push_byte

flush : GenericCdcChunker → Bytes → Outcome GenericCdcChunker
flush c [] = succeed (record c { hash = reset c.hash })
flush c (b ∷ bs) = emits (cleared c) ((b ∷ bs) ∷ [])

unfoldable pub finish : GenericCdcChunker → Outcome GenericCdcChunker
unfolding flush
finish c = flush c c.buffer
