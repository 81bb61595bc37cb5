-- ===== src/Zip/Walker/Members.antt =====
-- The members of an archive that is accepted.
use mathlib.Core.Path.{subst}
use async_chunker.Prelude.{
  ℕ, suc, ◌+◌, ◌-◌, ◌≡◌, refl, sym, Bool, true, false, Option, some, List, [], ◌∷◌, ◌++◌, arith,
  Bytes, ◌==◌, if_cases, if◌then◌else◌, length, take, Option-cases, inl, inr, ◌&&◌,
}
use async_chunker.Result.{ok, err, Ensures, Ensures-bind, Ensures-ok}
use async_chunker.Zip.Descriptor.{put, scan}
use async_chunker.Zip.Dispatch.{dispatch_signature, dispatch_fixed, enter, kind_of, reconcile_end}
use async_chunker.Zip.Fault.{ZipFault, truncated}
use async_chunker.Zip.Headers.{parse_local, parse_central, parse_end, parse_zip64_end}
use async_chunker.Zip.Numbers.{W}
use async_chunker.Zip.State.{
  Walker, Step, Event, Phase, members, central, zip64_end_seen, locator_seen, complete, Record,
  local_record, central_record, end_record, zip64_end_record, zip64_locator_record, Variable,
  local_variable, central_variable, State, signature, DataState, member_bytes, data_scan,
  descriptor, skip, fixed_len,
}
use async_chunker.Zip.State as State
use async_chunker.Zip.Walker.Tally.{
  Running, headers, ends, Tally, Tallied, After, anyway, signature-Tally, rescan-After,
  try_close_descriptor-After, enter-After, skipped-After, reconcile_end-agrees,
  begin_variable-After, dispatch_variable-After,
}
use async_chunker.Zip.Walker.{
  step, consume, new, counted, finish, is_complete, at_record, data_done,
}

running : (p : Phase) → is_complete p ≡ false → Running p
running p h = ground arith

dispatch_signature-After :
    (w : Walker) (s e : ℕ)
    → Running w.phase
    → s ≡ w.local_count
    → e ≡ w.local_count
    → Ensures (After s e) (dispatch_signature w)
unfolding dispatch_signature
dispatch_signature-After w s e p h k =
    let kind = kind_of (take 4 w.fixed) in
    Ensures-bind (λ _. Unit) (After s e) kind _ (anyway Unit kind tt)
      (λ kind _.
        Ensures-bind
          (λ (r : Walker × List Event).
            Running (r.0).phase
            × (headers s (r.1) ≡ (r.0).local_count)
            × (ends e (r.1) ≡ (r.0).local_count))
          (After s e) (enter kind w.phase w (w.offset - 3)) _
          (enter-After kind w (w.offset - 3) s e p h k) (λ r t. t))

dispatch_fixed-After :
    (kind : Record) (w : Walker) (s e : ℕ)
    → Running w.phase
    → s ≡ w.local_count
    → e ≡ w.local_count
    → Ensures (After s e) (dispatch_fixed kind w)
unfolding dispatch_fixed
dispatch_fixed-After local_record w s e p h k =
    let header = parse_local (take 26 w.fixed) in
    begin_variable-After (record w { local_count = w.local_count + 1 }) (local_variable header)
      (header.name_len + header.extra_len) s e (p, omega arith, omega arith)
dispatch_fixed-After central_record w s e p h k =
    let header = parse_central (take 42 w.fixed) in
    begin_variable-After (record w { central_count = w.central_count + 1 })
      (central_variable header) (header.name_len + header.extra_len + header.comment_len) s e
      (p, h, k)
dispatch_fixed-After end_record w s e p h k =
    let end = parse_end (take 18 w.fixed) in
    Ensures-bind (λ _. w.local_count ≡ w.central_count) (After s e) (reconcile_end w end) _
      (reconcile_end-agrees w end) (λ _ same. (skipped-After w end.comment_len s e p h k).1 same)
dispatch_fixed-After zip64_end_record w s e p h k =
    let end = parse_zip64_end (take 52 w.fixed) in
    Ensures-bind (λ _. Unit) (After s e) end _ (anyway Unit end tt)
      (λ z _. (skipped-After (record w { zip64_end = some z }) z.extensible_len s e p h k).0)
dispatch_fixed-After zip64_locator_record w s e p h k =
    signature-Tally w.phase 0 w.local_count w.central_count s e p h k

-- A walker with events, as a step is.
abbrev Done : ℕ → ℕ → Walker × List Event → Type 0
Done s e r = Tallied (headers s (r.1)) (ends e (r.1)) (r.0)

data_done-After :
    (w : Walker) (d : DataState) (s e : ℕ)
    → Running w.phase
    → s ≡ w.local_count
    → suc e ≡ w.local_count
    → Done s e (data_done w d)
data_done-After w d s e p h k = elim (Option-cases d.descriptor) [
  | inl ended ↦ rw ended (signature-Tally w.phase 0 w.local_count w.central_count s (suc e) p h k)
  | inr (shape, described) ↦ rw described (p, h, k)
]

skip-After :
    (r : ℕ) (after : Phase) (w : Walker) (s e : ℕ)
    → Tally (skip r after) w.phase w.local_count w.central_count s e
    → Tally (signature 0) after w.local_count w.central_count s e
      × Tally (skip (r - 1) after) w.phase w.local_count w.central_count s e
skip-After r after w s e t = ground arith

step-After :
    (st : State) (w : Walker) (b s e : ℕ)
    → w.state ≡ st
    → Tally st w.phase w.local_count w.central_count s e
    → Ensures (After s e) (step st w b)
unfolding step scan
step-After (signature len) w b s e st t =
    if_cases (Ensures (After s e)) (is_complete w.phase) _ _ (λ over. tt)
      (λ going.
        let p = running w.phase going in
        let (h, k) = at_signature w.phase w.local_count w.central_count s e p t in
        if_cases (Ensures (After s e)) (len + 1 == 4) _ _
          (λ whole. dispatch_signature-After (put w len b) s e p h k)
          (λ more. signature-Tally w.phase (len + 1) w.local_count w.central_count s e p h k))
  where
    at_signature :
        (p : Phase) (l c s e : ℕ) → Running p → Tally (signature len) p l c s e → (s ≡ l) × (e ≡ l)
    at_signature p l c s e r t = ground arith
step-After (State.fixed kind len) w b s e st (p, h, k) =
    if_cases (Ensures (After s e)) (len + 1 == fixed_len kind) _ _
      (λ whole. dispatch_fixed-After kind (put w len b) s e p h k) (λ more. (p, h, k))
step-After (State.variable v total) w b s e st t =
    let next = record w { variable = w.variable ++ b ∷ [] } in
    if_cases (Ensures (After s e)) (length next.variable == total) _ _
      (λ whole. dispatch_variable-After next v total s e t)
      (λ more. subst (λ (x : State). Tally x w.phase w.local_count w.central_count s e) (sym st) t)
step-After (member_bytes d) w b s e st (p, h, k) =
    if_cases (Done s e) (d.remaining - 1 == 0) _ _ (λ last. data_done-After w d s e p h k)
      (λ more. (p, h, k))
step-After (data_scan d) w b s e st (p, h, k) =
    rescan-After (d.pending + 1) (put w d.pending b) d s e p h k
step-After (descriptor d) w b s e st (p, h, k) =
    let next = record d { len = d.len + 1 } in
    try_close_descriptor-After (record (put w d.len b) { state = descriptor next }) next s e refl p
      h k
step-After (skip r after) w b s e st t =
    let (arrived, going) = skip-After r after w s e t in
    if_cases (Tallied s e) (r - 1 == 0) _ _ (λ last. arrived) (λ more. going)

-- `consume` on each byte up to the first fault, with all that the tap is called with.
abbrev pub continue :
    (Walker → List Event → W (Walker × List Event))
    → Walker × W (List Event × Option ℕ)
    → W (Walker × List Event)
continue k (w, ok (events, large)) = k w events
continue k (w, err fault) = err fault

abbrev pub prepend : List Event → W (Walker × List Event) → W (Walker × List Event)
prepend events (ok (w, later)) = ok (w, events ++ later)
prepend events (err fault) = err fault

unfoldable pub trace : Walker → Bytes → W (Walker × List Event)
unfolding consume
trace w [] = ok (w, [])
trace w (b ∷ bs) = continue (λ v events. prepend events (trace v bs)) (consume w b)

headers-append : (s : ℕ) (xs ys : List Event) → headers s (xs ++ ys) ≡ headers (headers s xs) ys
headers-append s [] ys = refl
headers-append s (State.local_header name method utf8 encrypted sizes crc ∷ xs) ys =
    headers-append (suc s) xs ys
headers-append s (State.member_data b ∷ xs) ys = headers-append s xs ys
headers-append s (State.member_end sizes crc ∷ xs) ys = headers-append s xs ys
headers-append s (State.central_begun ∷ xs) ys = headers-append s xs ys

ends-append : (e : ℕ) (xs ys : List Event) → ends e (xs ++ ys) ≡ ends (ends e xs) ys
ends-append e [] ys = refl
ends-append e (State.local_header name method utf8 encrypted sizes crc ∷ xs) ys =
    ends-append e xs ys
ends-append e (State.member_data b ∷ xs) ys = ends-append e xs ys
ends-append e (State.member_end sizes crc ∷ xs) ys = ends-append (suc e) xs ys
ends-append e (State.central_begun ∷ xs) ys = ends-append e xs ys

prepend-Done :
    (s e : ℕ) (events : List Event) (r : W (Walker × List Event))
    → Ensures (Done (headers s events) (ends e events)) r
    → Ensures (Done s e) (prepend events r)
prepend-Done s e events (ok (w, later)) t =
    rw (headers-append s events later, ends-append e events later) t
prepend-Done s e events (err fault) t = tt

continue-Done :
    (bs : Bytes) (w : Walker) (s e : ℕ) (r : W Step)
    → Ensures (After s e) r
    → ((v : Walker) (s e : ℕ) → Tallied s e v → Ensures (Done s e) (trace v bs))
    → Ensures (Done s e) (continue (λ v events. prepend events (trace v bs)) (counted w r))
unfolding counted
continue-Done bs w s e (ok r) t each =
    let next = record r.walker { offset = r.walker.offset + 1 } in
    prepend-Done s e r.events (trace next bs) (each next (headers s r.events) (ends e r.events) t)
continue-Done bs w s e (err fault) t each = tt

trace-Done : (bs : Bytes) (w : Walker) (s e : ℕ) → Tallied s e w → Ensures (Done s e) (trace w bs)
unfolding trace consume
trace-Done [] w s e t = t
trace-Done (b ∷ bs) w s e t =
    continue-Done bs w s e (step w.state w b) (step-After w.state w b s e refl t)
      (λ v s e u. trace-Done bs v s e u)

accepted : (b : Bool) (fault : ZipFault) → (if b then ok (tt {0}) else err fault) ≡ ok tt → b ≡ true
accepted b fault h = ground arith

complete-Tally :
    (st : State) (p : Phase) (l c s e : ℕ)
    → (is_complete p && at_record st) ≡ true
    → Tally st p l c s e
    → (s ≡ l) × (e ≡ l) × (c ≡ l)
complete-Tally (signature len) p l c s e h t = ground arith
complete-Tally _ p l c s e h t = ground arith

finished :
    (w : Walker) (s e : ℕ)
    → finish w ≡ ok tt
    → Tallied s e w
    → (s ≡ w.local_count) × (e ≡ w.local_count) × (w.central_count ≡ w.local_count)
unfolding finish
finished w s e f t =
    complete-Tally w.state w.phase w.local_count w.central_count s e
      (accepted (is_complete w.phase && at_record w.state) truncated f) t

-- Where a new walker takes the bytes and `finish` then accepts, as many local headers were reported, and as
-- many ends of members, as the walker has counted entries in the central directory, and as many local headers.
pub archive_members :
    (bs : Bytes) (w : Walker) (events : List Event)
    → trace new bs ≡ ok (w, events)
    → finish w ≡ ok tt
    → (headers 0 events ≡ w.central_count)
      × (ends 0 events ≡ w.central_count)
      × (w.local_count ≡ w.central_count)
unfolding new
archive_members bs w events e f =
    let t =
      Ensures-ok (Done 0 0) (trace new bs) (w, events) e (trace-Done bs new 0 0 (refl, refl)) in
    let (h, k, c) = finished w (headers 0 events) (ends 0 events) f t in
    (omega (arith, h, c), omega (arith, k, c), omega (arith, c))
