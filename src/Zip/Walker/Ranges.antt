-- ===== src/Zip/Walker/Ranges.antt =====
-- The walker stays inside its buffers, and its counters never underflow.
use mathlib.Core.Path.{subst}
use async_chunker.Prelude.{
  ℕ, ◌+◌, ◌≤◌, ◌<◌, ◌≡◌, sym, Bool, true, Option, none, some, List, [], ◌∷◌, ◌++◌, arith, Bytes,
  ltb, ◌==◌, if_cases, if◌then◌else◌, length, take, drop, not, leb, ◌&&◌, ◌%◌, ◌∙◌, length-set, inl,
  inr,
}
use async_chunker.Constants.{chunk_min}
use async_chunker.Prelude.Text.{bytes_eq}
use async_chunker.Result.{ok, err, Ensures, Ensures-bind, Ensures-both, ok_or}
use async_chunker.Zip.Descriptor.Scan.{Scans, scan_loses_nothing, scan-length}
use async_chunker.Zip.Descriptor.{
  closed, close_member, scan, try_close_descriptor, put, shape_of, body_at,
}
use async_chunker.Zip.Dispatch.{
  dispatch_variable, dispatch_known, dispatch_central, begin_variable, addressed, known, enter,
  skipped,
}
use async_chunker.Zip.Fault.{record_out_of_sequence}
use async_chunker.Zip.Headers.{LocalHeader, CentralHeader, data_descriptor, sizes, resolve}
use async_chunker.Zip.Numbers.{W, MemberSizes, check}
use async_chunker.Zip.Walker.Tally.{anyway}
use async_chunker.Zip.State.{
  Walker, Step, Event, Phase, Record, Variable, local_variable, central_variable, ScanState,
  DescriptorState, compressed, uncompressed, crc, State, signature, member_bytes, data_scan,
  descriptor, skip, fixed_len, fixed_max, body_len,
}
use async_chunker.Zip.State as State

-- The length of the variable part of a header.
abbrev pub total_of : Variable → ℕ
total_of (local_variable h) = h.name_len + h.extra_len
total_of (central_variable h) = h.name_len + h.extra_len + h.comment_len

-- With n bytes of a variable part collected.
abbrev pub Within : State → ℕ → Type 0
Within (signature len) n = len < 4
Within (State.fixed kind len) n = len < fixed_len kind
Within (State.variable v total) n = (total ≡ total_of v) × (n < total)
Within (member_bytes d) n = 0 < d.remaining
Within (data_scan d) n = d.pending < 4 + body_len (record { zip64 = d.zip64 })
Within (descriptor d) n = d.len < 4 + body_len d.shape
Within (skip r after) n = 0 < r

pub record InRange (w : Walker) : Type 0 where
  pub buffer : length w.fixed ≡ fixed_max
  pub within : Within w.state (length w.variable)

abbrev pub Safe : Step → Type 0
Safe r = InRange r.walker

-- A walker that stands at a signature.
pub at_signature :
    (w : Walker) (len : ℕ)
    → len < 4
    → length w.fixed ≡ fixed_max
    → InRange (record w { state = signature len })
at_signature w len h l = record { buffer = l; within = h }

closed-InRange :
    (w : Walker) (claims : MemberSizes) (crc : ℕ) (r : W (Unit {0}))
    → length w.fixed ≡ fixed_max
    → Ensures Safe (closed w claims crc r)
unfolding closed
closed-InRange w claims crc (ok _) l = at_signature w 0 (omega arith) l
closed-InRange w claims crc (err fault) l = tt

pub put-length :
    (w : Walker) (len b : ℕ) → length w.fixed ≡ fixed_max → length (put w len b).fixed ≡ fixed_max
put-length w len b l = length-set w.fixed len (b % 256) ∙ l

pub scan-InRange :
    (w : Walker) (d : ScanState) (b : ℕ)
    → length w.fixed ≡ fixed_max
    → d.pending < 4 + body_len (shape_of d)
    → Ensures Safe (scan w d b)
scan-InRange w d b l h =
    Ensures-both (Scans (take d.pending w.fixed ++ b % 256 ∷ []) d)
      (λ r. length r.walker.fixed ≡ fixed_max) Safe (scan w d b) (scan_loses_nothing w d b l h)
      (scan-length w d b l h) ranged
  where
    ranged :
        (r : Step)
        → Scans (take d.pending w.fixed ++ b % 256 ∷ []) d r
        → length r.walker.fixed ≡ fixed_max
        → InRange r.walker
    ranged r (inl g) k = record {
      buffer = k;
      within =
          subst (λ (st : State). Within st (length r.walker.variable)) (sym g.state)
            (rw g.zip64 g.pending);
    }
    ranged r (inr f) k = record {
      buffer = k;
      within =
          subst (λ (st : State). Within st (length r.walker.variable)) (sym f.state) (omega arith);
    }

-- A descriptor that is not whole yet, with its signature or without.
not_whole :
    (signed : Bool) (n body : ℕ) → ltb n ((if signed then 4 else 0) + body) ≡ true → n < 4 + body
not_whole signed n body h = ground arith

pub try_close_descriptor-InRange :
    (w : Walker) (d : DescriptorState)
    → length w.fixed ≡ fixed_max
    → d.len ≤ 4 + body_len d.shape
    → w.state ≡ descriptor d
    → Ensures Safe (try_close_descriptor w d)
unfolding try_close_descriptor close_member
try_close_descriptor-InRange w d l h st =
    let start : ℕ = if bytes_eq (take 4 w.fixed) data_descriptor then 4 else 0 in
    let body = body_at start d.shape w.fixed in
    let holds = Ensures Safe in
    let waits : d.len < 4 + body_len d.shape → InRange w = λ more. record {
      buffer = l;
      within = subst (λ (x : State). Within x (length w.variable)) (sym st) more;
    } in
    if_cases holds (ltb d.len 4) _ _ (λ few. waits (ground arith))
      (λ signed.
        if_cases holds (ltb d.len (start + body_len d.shape)) _ _
          (λ short.
            waits (
              not_whole (bytes_eq (take 4 w.fixed) data_descriptor) d.len (body_len d.shape) short))
          (λ whole.
            if_cases holds (not (compressed d.shape body == d.data_len)) _ _ (λ differs. tt)
              (λ agrees.
                let claims : MemberSizes = record {
                  compressed = d.data_len;
                  uncompressed = uncompressed d.shape body;
                } in
                closed-InRange w claims (crc body) (check claims d.method) l)))

pub enter-fixed :
    (kind : Record) (p : Phase) (w : Walker) (start : ℕ)
    → Ensures (λ (r : Walker × List Event). (r.0).fixed ≡ w.fixed) (enter kind p w start)
unfolding enter
enter-fixed kind p w start = ground arith

pub skipped-InRange :
    (w : Walker) (remaining : ℕ) (after : Phase)
    → length w.fixed ≡ fixed_max
    → InRange (skipped w remaining after)
skipped-InRange w remaining after l =
    if_cases InRange (remaining == 0) _ _
      (λ none_left. at_signature (record w { phase = after }) 0 (omega arith) l)
      (λ some_left. record { buffer = l; within = ground arith })

known-InRange :
    (w : Walker) (h : LocalHeader) (claims : MemberSizes) (seen : Event) (large : Option ℕ)
    → length w.fixed ≡ fixed_max
    → Safe (known w h claims seen large)
unfolding known
known-InRange w h claims seen large l =
    if_cases Safe (claims.compressed == 0) _ _ (λ empty. at_signature w 0 (omega arith) l)
      (λ some_left. record { buffer = l; within = ground arith })

dispatch_known-InRange :
    (w : Walker) (h : LocalHeader) (name extra : Bytes)
    → length w.fixed ≡ fixed_max
    → Ensures Safe (dispatch_known w h name extra)
unfolding dispatch_known
dispatch_known-InRange w h name extra l =
    Ensures-bind (λ _. Unit) Safe (sizes h extra) _ (anyway Unit (sizes h extra) tt)
      (λ claims _.
        Ensures-bind (λ _. Unit) Safe (check claims h.method) _
          (anyway Unit (check claims h.method) tt)
          (λ _ _.
            known-InRange w h claims
              (State.local_header name h.method h.utf8_flag h.encrypted (some claims) h.crc)
              (if leb chunk_min claims.compressed then some (26 + 4 + length w.variable) else none)
              l))

dispatch_central-InRange :
    (w : Walker) (h : CentralHeader)
    → length w.fixed ≡ fixed_max
    → Ensures Safe (dispatch_central w h)
unfolding dispatch_central addressed
dispatch_central-InRange w h l =
    let area = take h.extra_len (drop h.name_len w.variable) in
    let found = ok_or w.central_start record_out_of_sequence in
    Ensures-bind (λ _. Unit) Safe (resolve h area) _ (anyway Unit (resolve h area) tt)
      (λ r _.
        Ensures-bind (λ _. Unit) Safe (check (r.0) h.method) _
          (anyway Unit (check (r.0) h.method) tt)
          (λ _ _.
            Ensures-bind (λ _. Unit) Safe found _ (anyway Unit found tt)
              (λ start _.
                if_cases (Ensures Safe) (leb start (r.1)) _ _ (λ far. tt)
                  (λ near. at_signature w 0 (omega arith) l))))

pub dispatch_variable-InRange :
    (w : Walker) (v : Variable) → length w.fixed ≡ fixed_max → Ensures Safe (dispatch_variable w v)
unfolding dispatch_variable
dispatch_variable-InRange w (local_variable h) l =
    if_cases (Ensures Safe) (h.has_descriptor && h.compressed == 0) _ _
      (λ unknown. record { buffer = l; within = ground arith })
      (λ sized.
        dispatch_known-InRange w h (take h.name_len w.variable) (drop h.name_len w.variable) l)
dispatch_variable-InRange w (central_variable h) l = dispatch_central-InRange w h l

pub begin_variable-InRange :
    (w : Walker) (v : Variable) (total : ℕ)
    → length w.fixed ≡ fixed_max
    → total ≡ total_of v
    → Ensures Safe (begin_variable w v total)
unfolding begin_variable
begin_variable-InRange w v total l h =
    if_cases (Ensures Safe) (total == 0) _ _
      (λ none_left.
        dispatch_variable-InRange (record w { variable = []; state = State.variable v total }) v l)
      (λ some_left. record { buffer = l; within = (h, ground arith) })
