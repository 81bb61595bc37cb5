-- ===== src/StructuredText.antt =====
-- src/chunker/structured_text/chunker.rs: the `structured-text-v1` chunker, which cuts UTF-8 text after
-- line ends and soft breaks.
pub mod Seam
pub mod Laws
pub mod End
pub mod Stream
use async_chunker.Constants.{
  chunk_min, chunk_target, chunk_max, structured_text_strict_mask, structured_text_relaxed_mask,
}
use async_chunker.Errors.{malformed_profile_input, profile_stream_rejected}
use async_chunker.Gear
use async_chunker.Gear.{Blake3, GearHash, update, update_all, cuts, reset}
use async_chunker.Outcome.{Outcome, emits, fails, succeed, feed}
use async_chunker.Prelude.{
  ℕ, ◌+◌, Bool, true, false, not, String, [], ◌∷◌, ◌++◌, ltb, leb, if◌then◌else◌, Bytes, length,
  is_empty, take, drop,
}
use async_chunker.Profile.{structured_text_v1, name}
use async_chunker.Result.{Result, ok, err}
use async_chunker.StructuredText.Seam.{Candidate, line_end, soft_break, classify}
use async_chunker.Utf8.{Utf8Scanner, Utf8Fault, start, detail, at_boundary}
use async_chunker.Utf8

pub record StructuredTextChunker : Type 0 where
  pub hash : GearHash
  pub utf8 : Utf8Scanner
  pub offset : ℕ
  pub last_boundary : ℕ
  pub rejected : Bool
  pub buffer : Bytes

unfoldable pub new : Blake3 → StructuredTextChunker
unfolding Gear.new
new blake3 = record {
  hash = Gear.new blake3 "legra/structured-text-v1/gear";
  utf8 = start;
  offset = 0;
  last_boundary = 0;
  rejected = false;
  buffer = [];
}

-- `reject`, and the error that it returns.
unfoldable pub rejects : StructuredTextChunker → String → Outcome StructuredTextChunker
unfolding name
rejects c reason =
    fails (record c { rejected = true; buffer = [] })
      (malformed_profile_input (name structured_text_v1) c.offset reason)

-- The `match` of `cut_here`, on the candidate and on whether the buffer is below the target.
cuts_at : GearHash → Candidate → Bool → Bool
unfolding cuts
cuts_at hash Candidate.none below = false
cuts_at hash line_end true = cuts hash structured_text_strict_mask
cuts_at hash soft_break true = false
cuts_at hash line_end false = cuts hash structured_text_relaxed_mask
cuts_at hash soft_break false = cuts hash structured_text_relaxed_mask

unfoldable pub cut_here : StructuredTextChunker → ℕ → Bool
unfolding cuts_at classify
cut_here c byte =
    let len = length c.buffer in
    if ltb len chunk_min
    then false
    else if leb chunk_max len
    then true
    else cuts_at c.hash (classify byte) (ltb len chunk_target)

-- What `emit_whole` leaves.
abbrev pub emptied : StructuredTextChunker → StructuredTextChunker
emptied c = record c { buffer = []; last_boundary = 0; hash = reset c.hash }

abbrev pub emit_whole : StructuredTextChunker → Outcome StructuredTextChunker
emit_whole c = emits (emptied c) (c.buffer ∷ [])

unfoldable pub emit_to_last_boundary : StructuredTextChunker → Outcome StructuredTextChunker
unfolding update_all
emit_to_last_boundary c =
    let tail = drop c.last_boundary c.buffer in
    emits (record c { buffer = tail; last_boundary = 0; hash = update_all (reset c.hash) tail })
      (take c.last_boundary c.buffer ∷ [])

-- A byte that the scanner accepted.
abbrev pub taken : StructuredTextChunker → Utf8Scanner → ℕ → StructuredTextChunker
taken c utf8 byte = record c {
  utf8 = utf8;
  offset = c.offset + 1;
  buffer = c.buffer ++ byte ∷ [];
  hash = update c.hash byte;
}

abbrev pub marked : StructuredTextChunker → StructuredTextChunker
marked c = record c { last_boundary = length c.buffer }

unfoldable pub place : StructuredTextChunker → ℕ → Bool → Outcome StructuredTextChunker
unfolding cut_here emit_to_last_boundary
place c byte true = if cut_here (marked c) byte then emit_whole (marked c) else succeed (marked c)
place c byte false = if leb chunk_max (length c.buffer) then emit_to_last_boundary c else succeed c

unfoldable pub scanned :
    StructuredTextChunker
    → ℕ
    → Result Utf8Fault (Utf8Scanner × Bool)
    → Outcome StructuredTextChunker
unfolding place rejects detail update
scanned c byte (ok (utf8, completed)) = place (taken c utf8 byte) byte completed
scanned c byte (err fault) = rejects c (detail fault)

-- The body of the loop in `push`.
unfoldable pub push_byte : StructuredTextChunker → ℕ → Outcome StructuredTextChunker
unfolding scanned Utf8.push
push_byte c byte = scanned c byte (Utf8.push c.utf8 byte)

abbrev guarded :
    StructuredTextChunker → Outcome StructuredTextChunker → Outcome StructuredTextChunker
guarded c o = if c.rejected then fails c (profile_stream_rejected (name structured_text_v1)) else o

unfoldable pub push : StructuredTextChunker → Bytes → Outcome StructuredTextChunker
unfolding push_byte feed name
push c window = guarded c (feed push_byte c window)

abbrev pub rewound : StructuredTextChunker → StructuredTextChunker
rewound c = record c { utf8 = start; offset = 0 }

unfoldable pub end_stream : StructuredTextChunker → Outcome StructuredTextChunker
unfolding rejects at_boundary
end_stream c =
    if not (at_boundary c.utf8)
    then rejects c "stream ends inside a UTF-8 scalar"
    else if not (is_empty c.buffer)
    then emits (rewound (emptied c)) (c.buffer ∷ [])
    else succeed (rewound c)

unfoldable pub finish : StructuredTextChunker → Outcome StructuredTextChunker
unfolding end_stream name
finish c = guarded c (end_stream c)
