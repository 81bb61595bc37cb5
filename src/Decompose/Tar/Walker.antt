-- ===== src/Decompose/Tar/Walker.antt =====
-- src/decompose/tar.rs: the walker, byte by byte.
pub mod Room
pub mod Rooms
pub mod Members
pub mod Whole
pub mod Extended
use async_chunker.Decompose.Fault.{
  OpaqueReason, malformed, unsupported_feature, metadata_over_bound,
}
use async_chunker.Decompose.Sink as Sink
use async_chunker.Decompose.Sink.{EntryKind}
use async_chunker.Decompose.Tar.Fields.{block_len, field, parse_octal, c_string, checksum_matches}
use async_chunker.Decompose.Tar.Pax.{W, Overrides, no_overrides, pax_loop}
use async_chunker.Prelude.Text.{bytes_eq, codes}
use async_chunker.Prelude.{
  ℕ, zero, suc, ◌+◌, ◌-◌, ◌*◌, ◌%◌, ◌^◌, Bool, true, false, not, ◌&&◌, ◌||◌, String, Option, none,
  some, [], ◌∷◌, ◌++◌, ltb, leb, ◌==◌, if◌then◌else◌, Bytes, length, is_empty, get_or,
}
use async_chunker.Result.{Result, ok, err, ◌>>=◌, ok_or}

abbrev pub override_max : ℕ
override_max = 16 * 2 ^ 10

pub data TarKind : Type 0 where
  regular directory : TarKind
  symlink hardlink : Bytes → TarKind
  other : ℕ → TarKind

unfoldable pub to_entry_kind : TarKind → Option EntryKind
to_entry_kind regular = none
to_entry_kind directory = some Sink.directory
to_entry_kind (symlink target) = some (Sink.symlink target)
to_entry_kind (hardlink target) = some (Sink.hardlink target)
to_entry_kind (other tag) = some (Sink.other tag)

pub record TarEntry : Type 0 where
  pub path : Bytes
  pub kind : TarKind
  pub size : ℕ
  pub mode : Option ℕ
  pub mtime : Option ℕ

pub data TarEvent : Type 0 where
  nothing : TarEvent
  entry : TarEntry → TarEvent
  member_bytes : ℕ → TarEvent
  archive_end : TarEvent

pub data OverrideKind : Type 0 where
  pax_next pax_global gnu_name gnu_link : OverrideKind

-- `payload` is `State::Data`.
pub data State : Type 0 where
  header first_zero ended : State
  payload : ℕ → ℕ → State
  override_data : ℕ → ℕ → OverrideKind → State

pub record TarWalker : Type 0 where
  pub state : State
  pub block : Bytes
  pub overrides : Overrides
  pub offset : ℕ
  pub saw_entry : Bool

unfoldable pub new : TarWalker
new = record { state = header; block = []; overrides = no_overrides; offset = 0; saw_entry = false }

abbrev pub refuse : {A : Type 0} → TarWalker → String → W A
refuse w detail = err (malformed detail w.offset)

-- The walker in another state, with nothing to report.
abbrev pub to : TarWalker → State → W (TarWalker × TarEvent)
to w s = ok (record w { state = s }, nothing)

abbrev pub or_field : Option Bytes → Bytes → Bytes
or_field none bytes = bytes
or_field (some bytes) field = bytes

-- The path of the header's own fields.
unfoldable pub header_path : Bytes → Bytes
unfolding c_string bytes_eq
header_path block =
    let prefix = c_string (field block 345 500) in
    if not (is_empty prefix) && bytes_eq (field block 257 262) (codes "ustar")
    then prefix ++ (b'/' ∷ c_string (field block 0 100))
    else c_string (field block 0 100)

unfoldable pub kind_of : ℕ → Bytes → Option TarKind
kind_of typeflag link =
    if typeflag == b'0' || typeflag == 0 || typeflag == b'7'
    then some regular
    else if typeflag == b'5'
    then some directory
    else if typeflag == b'2'
    then some (symlink link)
    else if typeflag == b'1'
    then some (hardlink link)
    else if typeflag == b'3' || typeflag == b'4' || typeflag == b'6'
    then some (other typeflag)
    else none

-- `u32::try_from`
abbrev pub to_u32 : Option ℕ → Option ℕ
to_u32 none = none
to_u32 (some n) = if ltb n (2 ^ 32) then some n else none

abbrev pub or_size : Option ℕ → ℕ → ℕ
or_size none n = n
or_size (some m) n = m

-- The entry, with the overrides taken.
unfoldable pub build_entry : TarWalker → Bytes → ℕ → ℕ → W (TarWalker × TarEntry)
unfolding header_path kind_of c_string parse_octal
build_entry w block typeflag header_size = do
  let o = w.overrides
  let link = or_field o.link (c_string (field block 157 257))
  kind ← ok_or (kind_of typeflag link) (malformed "unknown tar entry type" w.offset)
  ok (
    record w { overrides = record o { path = none; link = none; size = none } },
    record {
      path = or_field o.path (header_path block);
      kind = kind;
      size = or_size o.size header_size;
      mode = to_u32 (parse_octal (field block 100 108));
      mtime = parse_octal (field block 136 148);
    },
  )

unfoldable pub begin_override : TarWalker → ℕ → ℕ → OverrideKind → TarWalker
begin_override w size padding kind = record w {
  overrides = record w.overrides { buffer = [] };
  state = if size == 0 then header else override_data size padding kind;
}

abbrev pub is_regular : TarKind → Bool
is_regular regular = true
is_regular _ = false

-- What follows the call of `build_entry`: the state behind the header.
unfoldable pub enter : TarWalker → TarEntry → ℕ → ℕ → W (TarWalker × TarEvent)
enter w e size padding =
    if is_regular e.kind && ltb 0 e.size
    then ok (record w { state = payload e.size padding; saw_entry = true }, entry e)
    else if ltb 0 size && not (is_regular e.kind)
    then refuse w "tar metadata entry declares a payload"
    else ok (record w { state = header; saw_entry = true }, entry e)

-- The match on the type flag.
unfoldable pub by_type : TarWalker → Bytes → ℕ → ℕ → ℕ → W (TarWalker × TarEvent)
unfolding begin_override build_entry enter
by_type w block typeflag size padding =
    if typeflag == b'x' || typeflag == b'X'
    then ok (begin_override w size padding pax_next, nothing)
    else if typeflag == b'g'
    then ok (begin_override w size padding pax_global, nothing)
    else if typeflag == b'L'
    then ok (begin_override w size padding gnu_name, nothing)
    else if typeflag == b'K'
    then ok (begin_override w size padding gnu_link, nothing)
    else if typeflag == b'S'
    then err (unsupported_feature "sparse tar member")
    else (build_entry w block typeflag size >>= λ r. enter r.0 r.1 size padding)

abbrev pub all_zero : Bytes → Bool
all_zero [] = true
all_zero (b ∷ bs) = b == 0 && all_zero bs

abbrev pub is_first_zero : State → Bool
is_first_zero first_zero = true
is_first_zero _ = false

-- The padding behind so many bytes.
abbrev pub padding_of : ℕ → ℕ
padding_of size = (block_len - size % block_len) % block_len

-- A block that is not zero, in the header state.
unfoldable pub real_header : TarWalker → Bytes → W (TarWalker × TarEvent)
unfolding by_type checksum_matches parse_octal
real_header w block =
    if checksum_matches block
    then (ok_or (parse_octal (field block 124 136))
          (malformed "tar size field is not octal" w.offset)
        >>= λ size. by_type w block (get_or block 156 0) size (padding_of size))
    else refuse w "tar header checksum mismatch"

unfoldable pub close_header : TarWalker → Bytes → W (TarWalker × TarEvent)
unfolding real_header
close_header w block =
    if all_zero block
    then (if is_first_zero w.state
        then ok (record w { state = ended }, archive_end)
        else to w first_zero)
    else if is_first_zero w.state
    then refuse w "lone zero block inside the archive"
    else real_header w block

-- The fuel suffices, so the default is not reached.
abbrev pub pax_result : Option (W Overrides) → Overrides → W Overrides
pax_result none o = ok o
pax_result (some r) o = r

unfoldable pub apply_override : Overrides → ℕ → OverrideKind → W Overrides
unfolding c_string pax_loop
apply_override o offset gnu_name = ok (record o { path = some (c_string o.buffer); buffer = [] })
apply_override o offset gnu_link = ok (record o { link = some (c_string o.buffer); buffer = [] })
apply_override o offset pax_global = ok (record o { buffer = [] })
apply_override o offset pax_next =
    pax_result (pax_loop (length o.buffer) (record o { buffer = [] }) offset o.buffer) o

-- Back at a header, with the override applied.
unfoldable pub override_done : TarWalker → OverrideKind → W (TarWalker × TarEvent)
unfolding apply_override
override_done w kind = do
  overrides ← apply_override w.overrides w.offset kind
  ok (record w { state = header; overrides = overrides }, nothing)

abbrev pub with_buffer : TarWalker → Bytes → TarWalker
with_buffer w buffer = record w { overrides = record w.overrides { buffer = buffer } }

unfoldable pub override_byte : TarWalker → ℕ → ℕ → OverrideKind → ℕ → W (TarWalker × TarEvent)
unfolding override_done
override_byte w (suc remaining) padding kind byte =
    let next = with_buffer w (w.overrides.buffer ++ byte ∷ []) in
    if leb override_max (length w.overrides.buffer)
    then err metadata_over_bound
    else if remaining == 0 && padding == 0
    then override_done next kind
    else to next (override_data remaining padding kind)
override_byte w zero padding kind byte =
    if not (byte == 0)
    then refuse w "nonzero tar padding"
    else if padding - 1 == 0
    then override_done w kind
    else to w (override_data 0 (padding - 1) kind)

unfoldable pub payload_byte : TarWalker → ℕ → ℕ → ℕ → W (TarWalker × TarEvent)
payload_byte w (suc remaining) padding byte = ok (
  record w { state = if remaining == 0 && padding == 0 then header else payload remaining padding },
  member_bytes 1,
)
payload_byte w zero padding byte =
    if not (byte == 0)
    then refuse w "nonzero tar padding"
    else to w (if padding - 1 == 0 then header else payload 0 (padding - 1))

-- A byte of a header block.
unfoldable pub header_byte : TarWalker → ℕ → W (TarWalker × TarEvent)
unfolding close_header
header_byte w byte =
    let block = w.block ++ byte ∷ [] in
    if ltb (length block) block_len
    then ok (record w { block = block }, nothing)
    else close_header (record w { block = [] }) block

unfoldable pub step : State → TarWalker → ℕ → W (TarWalker × TarEvent)
unfolding header_byte payload_byte override_byte
step header w byte = header_byte w byte
step first_zero w byte = header_byte w byte
step (payload remaining padding) w byte = payload_byte w remaining padding byte
step (override_data remaining padding kind) w byte = override_byte w remaining padding kind byte
step ended w byte = if byte == 0 then ok (w, nothing) else refuse w "bytes after the tar end marker"

-- The byte is counted. Where the step fails, nothing of the walker is used again.
unfoldable pub push : TarWalker → ℕ → W (TarWalker × TarEvent)
unfolding step
push w byte = do r ← step w.state w byte; ok (record r.0 { offset = r.0.offset + 1 }, r.1)

abbrev pub may_end : State → Bool
may_end header = true
may_end first_zero = true
may_end _ = false

abbrev pub is_ended : State → Bool
is_ended ended = true
is_ended _ = false

unfoldable pub finish : TarWalker → W (Unit {0})
finish w =
    if is_ended w.state || (may_end w.state && w.saw_entry && is_empty w.block)
    then ok tt
    else refuse w "tar archive is truncated"
