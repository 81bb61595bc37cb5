-- ===== src/Zip/Descriptor.antt =====
-- src/chunker/zip/walker/descriptor.rs: the data descriptors behind members.
pub mod Scan
use async_chunker.Prelude.Text.{bytes_eq}
use async_chunker.Prelude.{
  ℕ, zero, suc, ◌+◌, ◌-◌, Bool, true, not, ◌||◌, ◌&&◌, none, List, [], ◌∷◌, ◌++◌, ltb, leb, ◌==◌,
  ◌%◌, if◌then◌else◌, Bytes, take, drop, set, get_or,
}
use async_chunker.Result.{Result, ok, err}
use async_chunker.Zip.Fault.{ZipFault, descriptor_size_mismatch}
use async_chunker.Zip.Headers.{data_descriptor}
use async_chunker.Zip.Numbers.{W, MemberSizes, check}
use async_chunker.Zip.State.{
  Walker, Step, Event, member_data, member_end, State, data_scan, signature, DescriptorShape,
  ScanState, DescriptorState, body_len, crc, compressed, uncompressed, to,
}

-- A member has ended at a descriptor, with sizes that pass the check.
unfoldable pub closed : Walker → MemberSizes → ℕ → W (Unit {0}) → W Step
closed w claims crc (ok _) = ok (record {
  walker = record w { state = signature 0 };
  events = member_end claims crc ∷ [];
  large = none;
})
closed w claims crc (err fault) = err fault

-- `sizes.check(method)?` and the two lines after it.
unfoldable pub close_member : Walker → MemberSizes → ℕ → ℕ → W Step
unfolding closed check
close_member w claims method crc = closed w claims crc (check claims method)

-- The events of bytes found to be data, in front of those of what follows.
abbrev pub behind_data : ℕ → W Step → W Step
behind_data byte (ok s) = ok (record s { events = member_data byte ∷ s.events })
behind_data byte (err fault) = err fault

-- `fixed.copy_within(1..pending, 0)`, with `left` bytes pending after it.
abbrev pub copied_within : Walker → ℕ → Walker
copied_within w left = record w { fixed = take left (drop 1 w.fixed) ++ drop left w.fixed }

-- Whether the pending bytes may begin a descriptor.
abbrev pub looks_like_descriptor : ℕ → Bytes → Bool
looks_like_descriptor pending fixed = ltb pending 4 || bytes_eq (take 4 fixed) data_descriptor

-- The bytes of the descriptor behind the signature.
abbrev pub body_at : ℕ → DescriptorShape → Bytes → Bytes
body_at start shape fixed = take (body_len shape) (drop start fixed)

abbrev pub shape_of : ScanState → DescriptorShape
shape_of scan = record { zip64 = scan.zip64 }

-- The loop of `scan`, with that many bytes pending: a byte that fails the test is member data.
unfoldable pub rescan : ℕ → Walker → ScanState → W Step
unfolding close_member bytes_eq
rescan zero w scan = to (record w { state = data_scan (record scan { pending = 0 }) })
rescan (suc left) w scan =
    let shape = shape_of scan in
    let body = body_at 4 shape w.fixed in
    let claims : MemberSizes = record {
      compressed = scan.consumed;
      uncompressed = uncompressed shape body;
    } in
    let rest =
      behind_data (get_or w.fixed 0 0)
        (rescan left (copied_within w left) (record scan { consumed = scan.consumed + 1 })) in
    if not (looks_like_descriptor (suc left) w.fixed)
    then rest
    else if ltb (suc left) (4 + body_len shape)
    then to (record w { state = data_scan (record scan { pending = suc left }) })
    else if compressed shape body == scan.consumed
    then close_member w claims scan.method (crc body)
    else rest

-- An array of `u8`.
abbrev pub put : Walker → ℕ → ℕ → Walker
put w len byte = record w { fixed = set w.fixed len (byte % 256) }

unfoldable pub scan : Walker → ScanState → ℕ → W Step
unfolding rescan
scan w s byte = rescan (s.pending + 1) (put w s.pending byte) s

-- `try_close_descriptor`, with a state of that many collected bytes.
unfoldable pub try_close_descriptor : Walker → DescriptorState → W Step
unfolding close_member bytes_eq
try_close_descriptor w d =
    let signed = bytes_eq (take 4 w.fixed) data_descriptor in
    let start = if signed then 4 else 0 in
    let body = body_at start d.shape w.fixed in
    let claims : MemberSizes = record {
      compressed = d.data_len;
      uncompressed = uncompressed d.shape body;
    } in
    if ltb d.len 4
    then to w
    else if ltb d.len (start + body_len d.shape)
    then to w
    else if not (compressed d.shape body == d.data_len)
    then err descriptor_size_mismatch
    else close_member w claims d.method (crc body)
