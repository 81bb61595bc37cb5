-- ===== src/Isobmff/Walker.antt =====
-- src/chunker/isobmff/walker.rs. The stack `open` has its innermost entry first. A step that fails
-- leaves no walker: the chunker rejects the stream and reads only the offset from then on.
pub mod Stack
pub mod Shape
pub mod Nesting
pub mod Runs
use async_chunker.Constants.{chunk_min}
use async_chunker.Isobmff.Boxes.{
  BoxFault, not_an_iso_bmff_stream, size_below_header, open_size_nested, child_overruns_parent,
  depth_exceeded, truncated, uuid, may_begin_stream, is_container,
}
use async_chunker.Prelude.Text.{bytes_eq}
use async_chunker.Prelude.{
  ℕ, zero, suc, ◌+◌, ◌-◌, ◌*◌, Bool, true, false, not, ◌&&◌, ◌||◌, Option, none, some, List, [],
  ◌∷◌, ltb, leb, ◌==◌, if◌then◌else◌, Bytes, length, get_or, set, take, drop, replicate, is_empty,
}
use async_chunker.Result.{Result, ok, err, ◌>>=◌}

abbrev pub max_depth : ℕ
max_depth = 16

abbrev pub header_max : ℕ
header_max = 4 + 4 + 8 + 16

abbrev pub header_min : ℕ
header_min = 8

pub data State : Type 0 where
  header : ℕ → State
  payload : ℕ → State
  payload_to_end : State

pub record Walker : Type 0 where
  pub state : State
  pub header : Bytes
  pub open_boxes : List (Option ℕ)
  pub offset : ℕ
  pub seen_first : Bool

abbrev pub W : Type 0 → Type 0
W A = Result BoxFault A

unfoldable pub new : Walker
new = record {
  state = header 0;
  header = replicate header_max 0;
  open_boxes = [];
  offset = 0;
  seen_first = false;
}

abbrev at_start : State → Bool
at_start (header len) = len == 0
at_start _ = false

pub at_box_boundary : Walker → Bool
at_box_boundary w = at_start w.state

-- `u32::from_be_bytes` and `u64::from_be_bytes` of a slice.
unfoldable pub be_value : Bytes → ℕ → ℕ
be_value [] acc = acc
be_value (b ∷ bs) acc = be_value bs (acc * 256 + b)

unfoldable pub size32 : Bytes → ℕ
unfolding be_value
size32 h = be_value (take 4 h) 0

unfoldable pub kind : Bytes → Bytes
kind h = take 4 (drop 4 h)

unfoldable pub header_len : Bytes → ℕ
unfolding size32 kind bytes_eq
header_len h =
    header_min + (if size32 h == 1 then 8 else 0) + (if bytes_eq (kind h) uuid then 16 else 0)

-- `for remaining in self.open.iter_mut().flatten()`
unfoldable pub debit : ℕ → List (Option ℕ) → W (List (Option ℕ))
debit n [] = ok []
debit n (none ∷ rest) = do rest' ← debit n rest; ok (none ∷ rest')
debit n (some remaining ∷ rest) = do
  rest' ← debit n rest
  if ltb remaining n then err child_overruns_parent else ok (some (remaining - n) ∷ rest')

unfoldable pub pop_exhausted : List (Option ℕ) → List (Option ℕ)
pop_exhausted (some zero ∷ rest) = pop_exhausted rest
pop_exhausted open_boxes = open_boxes

unfoldable pub close_exhausted : Walker → Walker
unfolding pop_exhausted
close_exhausted w =
    if at_start w.state then record w { open_boxes = pop_exhausted w.open_boxes } else w

-- `size`: none is an open-ended box.
declared_size : Bytes → Option ℕ
unfolding size32 be_value
declared_size h =
    if size32 h == 0
    then none
    else if size32 h == 1
    then some (be_value (take 8 (drop 8 h)) 0)
    else some (size32 h)

-- What the innermost open box has left for a payload.
overruns : ℕ → List (Option ℕ) → Bool
overruns n (some remaining ∷ rest) = ltb remaining n
overruns n _ = false

payload_of : Option ℕ → ℕ → List (Option ℕ) → W (Option ℕ)
unfolding overruns
payload_of none header_len open_boxes =
    if not (is_empty open_boxes) then err open_size_nested else ok none
payload_of (some size) header_len open_boxes =
    if ltb size header_len
    then err size_below_header
    else if overruns (size - header_len) open_boxes
    then err child_overruns_parent
    else ok (some (size - header_len))

after_header : Option ℕ → State
after_header none = payload_to_end
after_header (some zero) = header 0
after_header (some (suc remaining)) = payload (suc remaining)

-- `payload.is_none_or(|payload| payload >= GENERIC_CDC_CHUNK_MIN_BYTES)`
is_large : Option ℕ → Bool
is_large none = true
is_large (some n) = leb chunk_min n

-- The end of `open_box`: descend, count, or run to the end.
enter : Walker → Option ℕ → W (Walker × Option ℕ)
unfolding close_exhausted after_header is_large is_container kind header_len
enter w p =
    if is_container (kind w.header)
    then (if length w.open_boxes == max_depth
        then err depth_exceeded
        else ok
            (close_exhausted (record w { open_boxes = p ∷ w.open_boxes; state = header 0 }), none))
    else ok (
      close_exhausted (record w { state = after_header p }),
      (if is_large p then some (header_len w.header) else none),
    )

unfoldable pub open_box : Walker → W (Walker × Option ℕ)
unfolding may_begin_stream payload_of declared_size enter kind header_len
open_box w =
    if not w.seen_first && not (may_begin_stream (kind w.header))
    then err not_an_iso_bmff_stream
    else do
      p ← payload_of (declared_size w.header) (header_len w.header) w.open_boxes
      enter (record w { seen_first = true }) p

collected : Walker → ℕ → W (Walker × Option ℕ)
unfolding open_box header_len
collected w len =
    if leb header_min len && len == header_len w.header then open_box w else ok (w, none)

-- `step`, by the state.
unfoldable pub step : State → Walker → ℕ → W (Walker × Option ℕ)
unfolding collected debit close_exhausted
step (header len) w byte = do
  open_boxes ← debit 1 w.open_boxes
  collected
      (record w {
        header = set w.header len byte;
        state = header (len + 1);
        open_boxes = open_boxes;
      })
      (len + 1)
step (payload remaining) w byte = do
  open_boxes ← debit 1 w.open_boxes
  ok (
    close_exhausted (record w {
      state = if remaining - 1 == 0 then header 0 else payload (remaining - 1);
      open_boxes = open_boxes;
    }),
    none,
  )
step payload_to_end w byte = ok (w, none)

abbrev pub moved_on : Walker → Walker
moved_on w = record w { offset = w.offset + 1 }

-- `consume`: the offset moves on whether the step succeeds or not.
counted : Walker → W (Walker × Option ℕ) → Walker × W (Option ℕ)
counted w (ok (w', large)) = (moved_on w', ok large)
counted w (err fault) = (moved_on w, err fault)

unfoldable pub consume : Walker → ℕ → Walker × W (Option ℕ)
unfolding step counted
consume w byte = counted w (step w.state w byte)

abbrev all_none : List (Option ℕ) → Bool
all_none [] = true
all_none (none ∷ rest) = all_none rest
all_none (some n ∷ rest) = false

is_payload_to_end : State → Bool
is_payload_to_end payload_to_end = true
is_payload_to_end _ = false

unfoldable pub finish : Walker → W (Unit {0})
unfolding is_payload_to_end
finish w =
    if (at_start w.state && all_none w.open_boxes && w.seen_first) || is_payload_to_end w.state
    then ok tt
    else err truncated
