-- ===== src/Zip/Walker/Tally.antt =====
-- The members that the walker reports, against its counters.
use mathlib.Core.Path.{subst}
use async_chunker.Prelude.Text.{bytes_eq}
use async_chunker.Prelude.{
  take, drop, not, get_or, leb, ◌||◌, ◌&&◌, ℕ, zero, suc, ◌+◌, ◌≡◌, sym, false, Option, none, some,
  List, [], ◌∷◌, arith, Bytes, ltb, ◌==◌, if_cases, if◌then◌else◌, length,
}
use async_chunker.Result.{ok, err, Ensures, Ensures-bind, ok_or}
use async_chunker.Constants.{chunk_min}
use async_chunker.Zip.Fault.{record_out_of_sequence}
use async_chunker.Zip.Descriptor.{
  closed, close_member, rescan, try_close_descriptor, behind_data, copied_within, shape_of, body_at,
  looks_like_descriptor,
}
use async_chunker.Zip.Dispatch.{
  dispatch_variable, dispatch_known, dispatch_central, begin_variable, reconcile_end, widened,
  map_some, known, addressed, enter, skipped,
}
use async_chunker.Zip.Headers.{
  LocalHeader, CentralHeader, EndRecord, data_descriptor, sizes, resolve,
}
use async_chunker.Zip.Numbers.{zip64_marker_16, W, MemberSizes, check}
use async_chunker.Zip.State.{
  Walker, Step, Event, local_header, member_end, Phase, members, central, zip64_end_seen,
  locator_seen, complete, Record, Variable, local_variable, central_variable, ScanState,
  DescriptorState, State, body_len, compressed, uncompressed, crc, signature, member_bytes,
  data_scan, descriptor, skip,
}

-- The archive is not complete.
abbrev pub Running : Phase → Type 0
Running complete = ⊥
Running _ = Unit

-- The headers among further events, where s were seen before; and the ends.
abbrev pub headers : ℕ → List Event → ℕ
headers s [] = s
headers s (local_header name method utf8 encrypted sizes crc ∷ es) = headers (suc s) es
headers s (_ ∷ es) = headers s es

abbrev pub ends : ℕ → List Event → ℕ
ends e [] = e
ends e (member_end sizes crc ∷ es) = ends (suc e) es
ends e (_ ∷ es) = ends e es

-- With s headers and e ends reported: how they stand to the l local headers and c central headers counted.
abbrev pub Tally : State → Phase → ℕ → ℕ → ℕ → ℕ → Type 0
Tally (signature len) complete l c s e = (l ≡ c) × (s ≡ l) × (e ≡ l)
Tally (signature len) _ l c s e = (s ≡ l) × (e ≡ l)
Tally (State.fixed kind len) p l c s e = Running p × (s ≡ l) × (e ≡ l)
Tally (State.variable (local_variable h) total) p l c s e = Running p × (suc s ≡ l) × (suc e ≡ l)
Tally (State.variable (central_variable h) total) p l c s e = Running p × (s ≡ l) × (e ≡ l)
Tally (skip r complete) p l c s e = Running p × (l ≡ c) × (s ≡ l) × (e ≡ l)
Tally (skip r _) p l c s e = Running p × (s ≡ l) × (e ≡ l)
Tally (member_bytes d) p l c s e = Running p × (s ≡ l) × (suc e ≡ l)
Tally (data_scan d) p l c s e = Running p × (s ≡ l) × (suc e ≡ l)
Tally (descriptor d) p l c s e = Running p × (s ≡ l) × (suc e ≡ l)

-- Of a walker, and of a step behind what was reported before it.
abbrev pub Tallied : ℕ → ℕ → Walker → Type 0
Tallied s e w = Tally w.state w.phase w.local_count w.central_count s e

abbrev pub After : ℕ → ℕ → Step → Type 0
After s e r = Tallied (headers s r.events) (ends e r.events) r.walker

pub signature-Tally :
    (p : Phase) (len l c s e : ℕ) → Running p → s ≡ l → e ≡ l → Tally (signature len) p l c s e
signature-Tally members len l c s e r h k = (h, k)
signature-Tally central len l c s e r h k = (h, k)
signature-Tally zip64_end_seen len l c s e r h k = (h, k)
signature-Tally locator_seen len l c s e r h k = (h, k)
signature-Tally complete len l c s e r h k = absurd r

closed-After :
    (w : Walker) (claims : MemberSizes) (crc s e : ℕ) (r : W (Unit {0}))
    → Running w.phase
    → s ≡ w.local_count
    → suc e ≡ w.local_count
    → Ensures (After s e) (closed w claims crc r)
unfolding closed
closed-After w claims crc s e (ok _) p h k =
    signature-Tally w.phase 0 w.local_count w.central_count s (suc e) p h k
closed-After w claims crc s e (err fault) p h k = tt

close_member-After :
    (w : Walker) (claims : MemberSizes) (method crc s e : ℕ)
    → Running w.phase
    → s ≡ w.local_count
    → suc e ≡ w.local_count
    → Ensures (After s e) (close_member w claims method crc)
unfolding close_member
close_member-After w claims method crc s e p h k =
    closed-After w claims crc s e (check claims method) p h k

behind_data-After :
    (b s e : ℕ) (r : W Step) → Ensures (After s e) r → Ensures (After s e) (behind_data b r)
behind_data-After b s e (ok r) h = h
behind_data-After b s e (err fault) h = tt

pub rescan-After :
    (left : ℕ) (w : Walker) (d : ScanState) (s e : ℕ)
    → Running w.phase
    → s ≡ w.local_count
    → suc e ≡ w.local_count
    → Ensures (After s e) (rescan left w d)
unfolding rescan
rescan-After zero w d s e p h k = (p, h, k)
rescan-After (suc left) w d s e p h k =
    let rest =
      behind_data-After (get_or w.fixed 0 0) s e
        (rescan left (copied_within w left) (record d { consumed = d.consumed + 1 }))
        (rescan-After left (copied_within w left) (record d { consumed = d.consumed + 1 }) s e p h
          k) in
    let holds = Ensures (After s e) in
    let body = body_at 4 (shape_of d) w.fixed in
    if_cases holds (not (looks_like_descriptor (suc left) w.fixed)) _ _ (λ other. rest)
      (λ looks.
        if_cases holds (ltb (suc left) (4 + body_len (shape_of d))) _ _ (λ short. (p, h, k))
          (λ whole.
            if_cases holds (compressed (shape_of d) body == d.consumed) _ _
              (λ fits.
                close_member-After w
                  (record {
                    compressed = d.consumed;
                    uncompressed = uncompressed (shape_of d) body;
                  })
                  d.method (crc body) s e p h k)
              (λ false_signature. rest)))

pub try_close_descriptor-After :
    (w : Walker) (d : DescriptorState) (s e : ℕ)
    → w.state ≡ descriptor d
    → Running w.phase
    → s ≡ w.local_count
    → suc e ≡ w.local_count
    → Ensures (After s e) (try_close_descriptor w d)
unfolding try_close_descriptor
try_close_descriptor-After w d s e st p h k =
    let holds = Ensures (After s e) in
    let waits : Tallied s e w =
      subst (λ (t : State). Tally t w.phase w.local_count w.central_count s e) (sym st) (p, h, k) in
    let start = if bytes_eq (take 4 w.fixed) data_descriptor then 4 else 0 in
    let body = body_at start d.shape w.fixed in
    if_cases holds (ltb d.len 4) _ _ (λ few. waits)
      (λ signed.
        if_cases holds (ltb d.len (start + body_len d.shape)) _ _ (λ short. waits)
          (λ whole.
            if_cases holds (not (compressed d.shape body == d.data_len)) _ _ (λ differs. tt)
              (λ agrees.
                close_member-After w
                  (record { compressed = d.data_len; uncompressed = uncompressed d.shape body })
                  d.method (crc body) s e p h k)))

pub enter-After :
    (kind : Record) (w : Walker) (start s e : ℕ)
    → Running w.phase
    → s ≡ w.local_count
    → e ≡ w.local_count
    → Ensures
        (λ (r : Walker × List Event).
          Running (r.0).phase
          × (headers s (r.1) ≡ (r.0).local_count)
          × (ends e (r.1) ≡ (r.0).local_count))
        (enter kind w.phase w start)
unfolding enter
enter-After kind w start s e p h k = ground arith

pub skipped-After :
    (w : Walker) (remaining : ℕ) (s e : ℕ)
    → Running w.phase
    → s ≡ w.local_count
    → e ≡ w.local_count
    → Tallied s e (skipped w remaining zip64_end_seen)
      × (w.local_count ≡ w.central_count → Tallied s e (skipped w remaining complete))
skipped-After w remaining s e p h k = ground arith

-- What holds anyway holds of any result.
pub anyway : {A : Type 0} (P : Type 0) (r : W A) → P → Ensures (λ _. P) r
anyway P (ok a) p = p
anyway P (err fault) p = tt

same_count : (n l c : ℕ) → (not (n == c) || not (n == l)) ≡ false → l ≡ c
same_count n l c h = ground arith

-- The counts agree where the end record is accepted.
pub reconcile_end-agrees :
    (w : Walker) (end : EndRecord)
    → Ensures (λ _. w.local_count ≡ w.central_count) (reconcile_end w end)
unfolding reconcile_end
reconcile_end-agrees w end =
    let n =
      widened zip64_marker_16 end.entries_total (map_some (λ z. z.entries_total) w.zip64_end) in
    if_cases (Ensures (λ _. w.local_count ≡ w.central_count))
      (not (n == w.central_count) || not (n == w.local_count)) _ _ (λ differ. tt)
      (λ same.
        anyway (w.local_count ≡ w.central_count) _
          (same_count n w.local_count w.central_count same))

known-After :
    (w : Walker) (h : LocalHeader) (claims : MemberSizes) (name : Bytes) (seen : Option MemberSizes)
    (crc : ℕ) (large : Option ℕ) (s e : ℕ)
    → Running w.phase
    → suc s ≡ w.local_count
    → suc e ≡ w.local_count
    → After s e
        (known w h claims (local_header name h.method h.utf8_flag h.encrypted seen crc) large)
unfolding known
known-After w h claims name seen crc large s e p i j =
    if_cases (After s e) (claims.compressed == 0) _ _
      (λ empty. signature-Tally w.phase 0 w.local_count w.central_count (suc s) (suc e) p i j)
      (λ some. (p, i, j))

dispatch_known-After :
    (w : Walker) (h : LocalHeader) (name extra : Bytes) (s e : ℕ)
    → Running w.phase
    → suc s ≡ w.local_count
    → suc e ≡ w.local_count
    → Ensures (After s e) (dispatch_known w h name extra)
unfolding dispatch_known
dispatch_known-After w h name extra s e p i j =
    Ensures-bind (λ _. Unit) (After s e) (sizes h extra) _ (anyway Unit (sizes h extra) tt)
      (λ claims _.
        Ensures-bind (λ _. Unit) (After s e) (check claims h.method) _
          (anyway Unit (check claims h.method) tt)
          (λ _ _.
            known-After w h claims name (some claims) h.crc
              (if leb chunk_min claims.compressed then some (26 + 4 + length w.variable) else none)
              s e p i j))

dispatch_central-After :
    (w : Walker) (h : CentralHeader) (s e : ℕ)
    → Running w.phase
    → s ≡ w.local_count
    → e ≡ w.local_count
    → Ensures (After s e) (dispatch_central w h)
unfolding dispatch_central addressed
dispatch_central-After w h s e p i j =
    let area = take h.extra_len (drop h.name_len w.variable) in
    let found = ok_or w.central_start record_out_of_sequence in
    Ensures-bind (λ _. Unit) (After s e) (resolve h area) _ (anyway Unit (resolve h area) tt)
      (λ r _.
        Ensures-bind (λ _. Unit) (After s e) (check (r.0) h.method) _
          (anyway Unit (check (r.0) h.method) tt)
          (λ _ _.
            Ensures-bind (λ _. Unit) (After s e) found _ (anyway Unit found tt)
              (λ start _.
                if_cases (Ensures (After s e)) (leb start (r.1)) _ _ (λ far. tt)
                  (λ near. signature-Tally w.phase 0 w.local_count w.central_count s e p i j))))

pub dispatch_variable-After :
    (w : Walker) (v : Variable) (total s e : ℕ)
    → Tally (State.variable v total) w.phase w.local_count w.central_count s e
    → Ensures (After s e) (dispatch_variable w v)
unfolding dispatch_variable
dispatch_variable-After w (local_variable h) total s e (p, i, j) =
    if_cases (Ensures (After s e)) (h.has_descriptor && h.compressed == 0) _ _
      (λ unknown. (p, i, j))
      (λ sized.
        dispatch_known-After w h (take h.name_len w.variable) (drop h.name_len w.variable) s e p i
          j)
dispatch_variable-After w (central_variable h) total s e (p, i, j) =
    dispatch_central-After w h s e p i j

pub begin_variable-After :
    (w : Walker) (v : Variable) (total s e : ℕ)
    → Tally (State.variable v total) w.phase w.local_count w.central_count s e
    → Ensures (After s e) (begin_variable w v total)
unfolding begin_variable
begin_variable-After w v total s e t =
    if_cases (Ensures (After s e)) (total == 0) _ _
      (λ none_left.
        dispatch_variable-After (record w { variable = []; state = State.variable v total }) v total
          s e t)
      (λ some_left. t)
