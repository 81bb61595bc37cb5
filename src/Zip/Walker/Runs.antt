-- ===== src/Zip/Walker/Runs.antt =====
-- The ranges of the walker over whole streams.
use mathlib.Core.Path.{subst}
use async_chunker.Prelude.{
  ℕ, ◌+◌, ◌-◌, ◌<◌, ◌≡◌, refl, sym, some, List, [], ◌∷◌, ◌++◌, arith, Bytes, ◌==◌, if_cases, length,
  take, length-append, Option-cases, inl, inr,
}
use async_chunker.Result.{ok, err, Ensures, Ensures-bind, Ensures-ok}
use async_chunker.Zip.Descriptor.{put}
use async_chunker.Zip.Dispatch.{dispatch_signature, dispatch_fixed, enter, kind_of, reconcile_end}
use async_chunker.Zip.Headers.{parse_local, parse_central, parse_end, parse_zip64_end}
use async_chunker.Zip.Numbers.{W}
use async_chunker.Zip.State.{
  Walker, Step, Event, zip64_end_seen, complete, Record, local_record, central_record, end_record,
  zip64_end_record, zip64_locator_record, local_variable, central_variable, DataState, State,
  signature, member_bytes, data_scan, descriptor, skip, fixed_len, fixed_max,
}
use async_chunker.Zip.Walker.Members.{trace, continue, prepend}
use async_chunker.Zip.Walker.Ranges.{
  Within, InRange, Safe, at_signature, scan-InRange, try_close_descriptor-InRange, enter-fixed,
  skipped-InRange, dispatch_variable-InRange, begin_variable-InRange, put-length,
}
use async_chunker.Zip.Walker.Tally.{anyway}
use async_chunker.Zip.Walker.{step, consume, new, counted, is_complete, data_done}

dispatch_signature-InRange :
    (w : Walker) → length w.fixed ≡ fixed_max → Ensures Safe (dispatch_signature w)
unfolding dispatch_signature
dispatch_signature-InRange w l =
    let kind = kind_of (take 4 w.fixed) in
    Ensures-bind (λ _. Unit) Safe kind _ (anyway Unit kind tt)
      (λ kind _.
        Ensures-bind (λ (r : Walker × List Event). (r.0).fixed ≡ w.fixed) Safe
          (enter kind w.phase w (w.offset - 3)) _ (enter-fixed kind w.phase w (w.offset - 3))
          (λ r same. record { buffer = rw same l; within = positive kind }))
  where
    positive : (kind : Record) → 0 < fixed_len kind
    positive kind = ground arith

dispatch_fixed-InRange :
    (kind : Record) (w : Walker) → length w.fixed ≡ fixed_max → Ensures Safe (dispatch_fixed kind w)
unfolding dispatch_fixed
dispatch_fixed-InRange local_record w l =
    let header = parse_local (take 26 w.fixed) in
    begin_variable-InRange (record w { local_count = w.local_count + 1 }) (local_variable header)
      (header.name_len + header.extra_len) l refl
dispatch_fixed-InRange central_record w l =
    let header = parse_central (take 42 w.fixed) in
    begin_variable-InRange (record w { central_count = w.central_count + 1 })
      (central_variable header) (header.name_len + header.extra_len + header.comment_len) l refl
dispatch_fixed-InRange end_record w l =
    let end = parse_end (take 18 w.fixed) in
    Ensures-bind (λ _. Unit) Safe (reconcile_end w end) _ (anyway Unit (reconcile_end w end) tt)
      (λ _ _. skipped-InRange w end.comment_len complete l)
dispatch_fixed-InRange zip64_end_record w l =
    let end = parse_zip64_end (take 52 w.fixed) in
    Ensures-bind (λ _. Unit) Safe end _ (anyway Unit end tt)
      (λ z _. skipped-InRange (record w { zip64_end = some z }) z.extensible_len zip64_end_seen l)
dispatch_fixed-InRange zip64_locator_record w l = at_signature w 0 (omega arith) l

data_done-InRange :
    (w : Walker) (d : DataState) → length w.fixed ≡ fixed_max → InRange ((data_done w d).0)
data_done-InRange w d l = elim (Option-cases d.descriptor) [
  | inl ended ↦ rw ended (at_signature w 0 (omega arith) l)
  | inr (shape, described) ↦ rw described (record { buffer = l; within = ground arith })
]

step-InRange :
    (st : State) (w : Walker) (b : ℕ)
    → w.state ≡ st
    → length w.fixed ≡ fixed_max
    → Within st (length w.variable)
    → Ensures Safe (step st w b)
unfolding step
step-InRange (signature len) w b st l h =
    if_cases (Ensures Safe) (is_complete w.phase) _ _ (λ over. tt)
      (λ going.
        if_cases (Ensures Safe) (len + 1 == 4) _ _
          (λ whole. dispatch_signature-InRange (put w len b) (put-length w len b l))
          (λ more. at_signature (put w len b) (len + 1) (ground arith) (put-length w len b l)))
step-InRange (State.fixed kind len) w b st l h =
    if_cases (Ensures Safe) (len + 1 == fixed_len kind) _ _
      (λ whole. dispatch_fixed-InRange kind (put w len b) (put-length w len b l))
      (λ more. record { buffer = put-length w len b l; within = ground arith })
step-InRange (State.variable v total) w b st l (t, h) =
    let next = record w { variable = w.variable ++ b ∷ [] } in
    let longer = length-append w.variable (b ∷ []) in
    if_cases (Ensures Safe) (length next.variable == total) _ _
      (λ whole. dispatch_variable-InRange next v l)
      (λ more. record {
        buffer = l;
        within =
            subst (λ (x : State). Within x (length next.variable)) (sym st)
              (t, ground (arith, longer));
      })
step-InRange (member_bytes d) w b st l h =
    if_cases (λ (r : Walker × List Event). InRange (r.0)) (d.remaining - 1 == 0) _ _
      (λ last. data_done-InRange w d l) (λ more. record { buffer = l; within = ground arith })
step-InRange (data_scan d) w b st l h = scan-InRange w d b l h
step-InRange (descriptor d) w b st l h =
    let next = record d { len = d.len + 1 } in
    try_close_descriptor-InRange (record (put w d.len b) { state = descriptor next }) next
      (put-length w d.len b l) (omega arith) refl
step-InRange (skip r after) w b st l h =
    if_cases InRange (r - 1 == 0) _ _
      (λ last. at_signature (record w { phase = after }) 0 (omega arith) l)
      (λ more. record { buffer = l; within = ground arith })

-- What a traced walker ends with.
abbrev Ends : Walker × List Event → Type 0
Ends r = InRange (r.0)

prepend-Ends :
    (events : List Event) (r : W (Walker × List Event))
    → Ensures Ends r
    → Ensures Ends (prepend events r)
prepend-Ends events (ok (w, later)) h = h
prepend-Ends events (err fault) h = tt

continue-Ends :
    (bs : Bytes) (w : Walker) (r : W Step)
    → Ensures Safe r
    → ((v : Walker) → InRange v → Ensures Ends (trace v bs))
    → Ensures Ends (continue (λ v events. prepend events (trace v bs)) (counted w r))
unfolding counted
continue-Ends bs w (ok r) h each =
    let next = record r.walker { offset = r.walker.offset + 1 } in
    prepend-Ends r.events (trace next bs)
      (each next (record { buffer = h.buffer; within = h.within }))
continue-Ends bs w (err fault) h each = tt

trace-Ends : (bs : Bytes) (w : Walker) → InRange w → Ensures Ends (trace w bs)
unfolding trace consume
trace-Ends [] w h = h
trace-Ends (b ∷ bs) w h =
    continue-Ends bs w (step w.state w b) (step-InRange w.state w b refl h.buffer h.within)
      (λ v i. trace-Ends bs v i)

-- However many bytes a new walker has accepted: its buffer has its fixed length, and the place of the next
-- byte of a signature, of a record's fixed part, of a pending descriptor or of one being collected lies inside
-- what the record or descriptor may hold; a header's variable part has less than the lengths that the header
-- declares; and no counter of member or skipped bytes is zero, so that counting down never underflows.
pub walker_in_range :
    (bs : Bytes) (w : Walker) (events : List Event)
    → trace new bs ≡ ok (w, events)
    → (length w.fixed ≡ fixed_max) × Within w.state (length w.variable)
unfolding new
walker_in_range bs w events e =
    let r =
      Ensures-ok Ends (trace new bs) (w, events) e
        (trace-Ends bs new (record { buffer = refl; within = omega arith })) in
    (r.buffer, r.within)
