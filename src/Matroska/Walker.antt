-- ===== src/Matroska/Walker.antt =====
-- src/chunker/matroska/walker.rs: the forward-only walker over EBML elements.

pub mod Stack
use async_chunker.Constants.{chunk_min}
use async_chunker.Matroska.Elements.{
  EbmlFault, not_matroska, invalid_id, invalid_size, unknown_size_forbidden,
  element_overruns_parent, top_level_element, unexpected_cluster_child, truncated, ebml_header,
  segment_id, void, cluster_id, is_segment_level, is_cluster_child,
}
use async_chunker.Matroska.Varint
use async_chunker.Matroska.Varint.{id_value, size_value}
use async_chunker.Prelude.{
  ℕ, zero, suc, ◌+◌, ◌-◌, Bool, true, false, not, ◌&&◌, List, [], ◌∷◌, Option, none, some, ltb, leb,
  ◌==◌, if◌then◌else◌, Bytes, set, take, drop, replicate,
}
use async_chunker.Result.{Result, ok, err, ◌>>=◌, ok_or}

abbrev pub header_max : ℕ
header_max = 4 + 8

pub data Kind : Type 0 where
  segment cluster : Kind

pub record Open : Type 0 where
  pub kind : Kind
  pub remaining : Option ℕ

pub data State : Type 0 where
  id : ℕ → State
  size : ℕ → State
  payload : ℕ → State

-- The innermost container stands first.
pub record Walker : Type 0 where
  pub state : State
  pub header : Bytes
  pub id_len : ℕ
  pub size_len : ℕ
  pub containers : List Open
  pub offset : ℕ
  pub seen_header : Bool
  pub seen_segment : Bool

abbrev pub W : Type 0 → Type 0
W = Result EbmlFault

unfoldable pub new : Walker
new = record {
  state = State.id 0;
  header = replicate header_max 0;
  id_len = 0;
  size_len = 0;
  containers = [];
  offset = 0;
  seen_header = false;
  seen_segment = false;
}

abbrev at_start : State → Bool
at_start (State.id zero) = true
at_start _ = false

abbrev in_unit : List Open → Bool
in_unit [] = true
in_unit (o ∷ os) = elim (o.kind) [ segment ↦ true | cluster ↦ false ]

unfoldable pub at_unit_boundary : Walker → Bool
at_unit_boundary w = at_start w.state && in_unit w.containers

-- One container, charged.
abbrev charged : ℕ → Open → W Open
charged n o = elim (o.remaining) [
  | none ↦ ok o
  | some r ↦
      if ltb r n then err element_overruns_parent else ok (record o { remaining = some (r - n) })
]

unfoldable pub debit : ℕ → List Open → W (List Open)
debit n [] = ok []
debit n (o ∷ os) = do o' ← charged n o; os' ← debit n os; ok (o' ∷ os')

-- `iter().rev().find_map(|open| open.remaining)`
unfoldable pub least_left : List Open → Option ℕ
least_left [] = none
least_left (o ∷ os) =
    let rest = least_left os in elim (o.remaining) [ none ↦ rest | some r ↦ some r ]

abbrev is_spent : Option ℕ → Bool
is_spent (some zero) = true
is_spent _ = false

-- The innermost container is exhausted, or unbounded within an exhausted one.
abbrev is_exhausted : Open → List Open → Bool
is_exhausted o os = elim (o.remaining) [ none ↦ is_spent (least_left os) | some r ↦ r == 0 ]

unfoldable pub pop_exhausted : List Open → List Open
unfolding least_left
pop_exhausted [] = []
pop_exhausted (o ∷ os) = let rest = pop_exhausted os in if is_exhausted o os then rest else o ∷ os

unfoldable pub close_exhausted : Walker → Walker
unfolding pop_exhausted
close_exhausted w =
    if at_start w.state then record w { containers = pop_exhausted w.containers } else w

unfoldable pub begin_payload : Walker → ℕ → Walker
unfolding close_exhausted
begin_payload w n = close_exhausted (record w { state = if n == 0 then State.id 0 else payload n })

-- A payload that must have a size: `payload.ok_or(..)?; begin_payload(payload); Ok(None)`.
abbrev sized : Walker → Option ℕ → W (Walker × Option ℕ)
sized w none = err unknown_size_forbidden
sized w (some n) = ok (begin_payload w n, none)

unfoldable pub top_level : Walker → ℕ → Option ℕ → W (Walker × Option ℕ)
unfolding begin_payload close_exhausted
top_level w ident length =
    if not w.seen_header
    then if ident == ebml_header
      then sized (record w { seen_header = true }) length
      else err not_matroska
    else if ident == segment_id
    then ok (
      close_exhausted (record w {
        seen_segment = true;
        containers = record { kind = segment; remaining = length } ∷ w.containers;
        state = State.id 0;
      }),
      none,
    )
    else if ident == void
    then sized w length
    else err top_level_element

unfoldable pub segment_child : Walker → ℕ → Option ℕ → ℕ → W (Walker × Option ℕ)
unfolding begin_payload
segment_child w ident none header_len =
    if ident == cluster_id
    then ok (
      record w {
        containers = record { kind = cluster; remaining = none } ∷ w.containers;
        state = State.id 0;
      },
      some header_len,
    )
    else err unknown_size_forbidden
segment_child w ident (some n) header_len =
    ok (begin_payload w n, if leb chunk_min n then some header_len else none)

abbrev outer : List Open → List Open
outer [] = []
outer (o ∷ os) = os

unfoldable pub cluster_child : Walker → ℕ → Option ℕ → ℕ → W (Walker × Option ℕ)
unfolding begin_payload segment_child is_cluster_child is_segment_level
cluster_child w ident length header_len =
    if is_cluster_child ident
    then sized w length
    else if is_segment_level ident
    then segment_child (record w { containers = outer w.containers }) ident length header_len
    else err unexpected_cluster_child

abbrev overruns : Option ℕ → Option ℕ → Bool
overruns (some n) (some r) = ltb r n
overruns _ _ = false

-- The `match context` of `open_element`.
abbrev dispatch : List Open → Walker → ℕ → Option ℕ → ℕ → W (Walker × Option ℕ)
dispatch [] w ident length header_len = top_level w ident length
dispatch (o ∷ os) w ident length header_len = elim (o.kind) [
  | segment ↦ segment_child w ident length header_len
  | cluster ↦ cluster_child w ident length header_len
]

unfoldable pub open_element : Walker → W (Walker × Option ℕ)
unfolding top_level segment_child cluster_child least_left id_value size_value
open_element w =
    let ident = id_value (take w.id_len w.header) in
    let value = size_value (take w.size_len (drop w.id_len w.header)) in
    let length = if value.1 then none else some value.0 in
    if overruns length (least_left w.containers)
    then err element_overruns_parent
    else dispatch w.containers w ident length (w.id_len + w.size_len)

-- A header byte, stored and charged.
stored : Walker → ℕ → ℕ → W Walker
unfolding debit
stored w place byte = do
  opens ← debit 1 w.containers
  ok (record w { header = set w.header place byte; containers = opens })

abbrev with_id_len : ℕ → Walker → ℕ → W Walker
with_id_len zero w byte = do
  len ← ok_or (Varint.id_len byte) invalid_id
  ok (record w { id_len = len })
with_id_len (suc n) w byte = ok w

abbrev with_size_len : ℕ → Walker → ℕ → W Walker
with_size_len zero w byte = do
  len ← ok_or (Varint.size_len byte) invalid_size
  ok (record w { size_len = len })
with_size_len (suc n) w byte = ok w

unfoldable pub step : State → Walker → ℕ → W (Walker × Option ℕ)
unfolding stored debit close_exhausted open_element Varint.id_len Varint.size_len
step (State.id len) w byte = do
  v ← with_id_len len w byte
  u ← stored v len byte
  ok (record u { state = if len + 1 == u.id_len then State.size 0 else State.id (len + 1) }, none)
step (State.size len) w byte = do
  v ← with_size_len len w byte
  u ← stored v (v.id_len + len) byte
  if len + 1 == u.size_len
      then open_element u
      else ok (record u { state = State.size (len + 1) }, none)
step (payload remaining) w byte = do
  opens ← debit 1 w.containers
  let left = remaining - 1
  ok (
    close_exhausted
        (record w { containers = opens; state = if left == 0 then State.id 0 else payload left }),
    none,
  )

abbrev moved_on : Walker → Walker
moved_on w = record w { offset = w.offset + 1 }

-- The byte is counted also where the step failed.
counted : Walker → W (Walker × Option ℕ) → Walker × W (Option ℕ)
counted w (ok r) = (moved_on r.0, ok r.1)
counted w (err fault) = (moved_on w, err fault)

unfoldable pub consume : Walker → ℕ → Walker × W (Option ℕ)
unfolding counted step
consume w byte = counted w (step w.state w byte)

abbrev all_unbounded : List Open → Bool
all_unbounded [] = true
all_unbounded (o ∷ os) = elim (o.remaining) [ none ↦ true | some r ↦ false ] && all_unbounded os

unfoldable pub finish : Walker → W (Unit {0})
finish w =
    if at_start w.state && all_unbounded w.containers && w.seen_segment
    then ok tt
    else err truncated
