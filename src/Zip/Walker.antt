-- ===== src/Zip/Walker.antt =====
-- src/chunker/zip/walker/core.rs: the walker over the records and members of an archive.
pub mod Tally
pub mod Members
pub mod Ranges
pub mod Runs
use async_chunker.Prelude.{
  ℕ, ◌+◌, ◌-◌, ◌%◌, Bool, true, false, ◌&&◌, Option, none, some, List, [], ◌∷◌, ◌++◌, ◌==◌,
  if◌then◌else◌, Bytes, replicate, length,
}
use async_chunker.Result.{Result, ok, err}
use async_chunker.Zip.Descriptor.{scan, try_close_descriptor, put}
use async_chunker.Zip.Dispatch.{dispatch_signature, dispatch_fixed, dispatch_variable}
use async_chunker.Zip.Fault.{ZipFault, trailing_bytes, truncated}
use async_chunker.Zip.Numbers.{W, MemberSizes}
use async_chunker.Zip.State.{
  Walker, Step, Event, member_data, member_end, Phase, members, complete, Record, Variable,
  DataState, DescriptorState, DescriptorShape, State, signature, member_bytes, descriptor, skip,
  fixed_len, fixed_max, to,
}
use async_chunker.Zip.State as State

unfoldable pub new : Walker
new = record {
  state = signature 0;
  phase = members;
  offset = 0;
  fixed = replicate fixed_max 0;
  variable = [];
  local_count = 0;
  central_count = 0;
  central_start = none;
  central_end = 0;
  zip64_end = none;
}

abbrev pub is_members : Phase → Bool
is_members members = true
is_members _ = false

abbrev pub is_complete : Phase → Bool
is_complete complete = true
is_complete _ = false

-- `matches!(self.state, State::Signature { len: 0 })`
abbrev pub at_record : State → Bool
at_record (signature len) = len == 0
at_record _ = false

unfoldable pub at_member_boundary : Walker → Bool
at_member_boundary w = at_record w.state && is_members w.phase

-- What follows the last data byte of a member.
abbrev pub data_done : Walker → DataState → Walker × List Event
data_done w d = elim d.descriptor [
  | some shape ↦ (
    record w {
      state = descriptor (record { shape = shape; data_len = d.total; method = d.method; len = 0 });
    },
    [],
  )
  | none ↦ (
    record w { state = signature 0 },
    member_end (record { compressed = d.total; uncompressed = d.uncompressed }) d.crc ∷ [],
  )
]

unfoldable pub step : State → Walker → ℕ → W Step
unfolding dispatch_signature dispatch_fixed dispatch_variable scan try_close_descriptor
step (signature len) w byte =
    let v = put w len byte in
    if is_complete w.phase
    then err trailing_bytes
    else if len + 1 == 4
    then dispatch_signature v
    else to (record v { state = signature (len + 1) })
step (State.fixed kind len) w byte =
    let v = put w len byte in
    if len + 1 == fixed_len kind
    then dispatch_fixed kind v
    else to (record v { state = State.fixed kind (len + 1) })
step (State.variable kind total) w byte =
    let v = record w { variable = w.variable ++ byte ∷ [] } in
    if length v.variable == total then dispatch_variable v kind else to v
step (member_bytes d) w byte =
    let left = d.remaining - 1 in
    let (v, ended) =
      if left == 0
      then data_done w d
      else (record w { state = member_bytes (record d { remaining = left }) }, []) in
    ok (record { walker = v; events = member_data byte ∷ ended; large = none })
step (State.data_scan s) w byte = scan w s byte
step (descriptor d) w byte =
    let e = record d { len = d.len + 1 } in
    try_close_descriptor (record (put w d.len byte) { state = descriptor e }) e
step (skip remaining after) w byte =
    let left = remaining - 1 in
    to (
      if left == 0
      then record w { phase = after; state = signature 0 }
      else record w { state = skip left after })

-- The byte is counted also where the step failed.
unfoldable pub counted : Walker → W Step → Walker × W (List Event × Option ℕ)
counted w (ok s) = (record s.walker { offset = s.walker.offset + 1 }, ok (s.events, s.large))
counted w (err fault) = (record w { offset = w.offset + 1 }, err fault)

-- With what the tap is called with, in order.
unfoldable pub consume : Walker → ℕ → Walker × W (List Event × Option ℕ)
unfolding counted step
consume w byte = counted w (step w.state w byte)

-- `NoEvents`, the tap of `zip-v1`, does nothing with its calls.
abbrev pub no_events : W (List Event × Option ℕ) → W (Option ℕ)
no_events (ok (events, large)) = ok large
no_events (err fault) = err fault

unfoldable pub consume_untapped : Walker → ℕ → Walker × W (Option ℕ)
unfolding consume
consume_untapped w byte = let (v, result) = consume w byte in (v, no_events result)

unfoldable pub finish : Walker → W (Unit {0})
finish w = if is_complete w.phase && at_record w.state then ok tt else err truncated
