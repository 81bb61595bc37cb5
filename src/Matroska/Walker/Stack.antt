-- ===== src/Matroska/Walker/Stack.antt =====
-- The containers that the EBML walker has open: at most a segment and, in it, a cluster.
use mathlib.Core.Path.{subst}
use async_chunker.Matroska.Walker.{
  Walker, Open, Kind, segment, cluster, State, payload, W, new, charged, debit, pop_exhausted,
  is_exhausted, close_exhausted, begin_payload, sized, top_level, segment_child, cluster_child,
  outer, dispatch, open_element, stored, with_id_len, with_size_len, step, counted, consume,
  at_start, overruns, least_left,
}
use async_chunker.Prelude.{
  ℕ, suc, zero, ◌+◌, ◌-◌, ◌≡◌, ◌≢◌, refl, List, [], ◌∷◌, Option, none, some, true, not, sym, ◌==◌,
  if◌then◌else◌, arith, Bytes, take, drop, if_cases,
}
use async_chunker.Matroska.Elements.{
  element_overruns_parent, is_cluster_child, is_segment_level, ebml_header, segment_id, cluster_id,
  void,
}
use async_chunker.Matroska.Varint.{id_value, size_value}
use async_chunker.Result.{ok, err, Ensures, Ensures-bind}

-- Nothing, a segment, or an unbounded cluster inside a segment.
abbrev pub Stacked : List Open → Type 0
Stacked [] = Unit
Stacked (o ∷ []) = o.kind ≡ segment
Stacked (o ∷ p ∷ []) = (o.kind ≡ cluster) × (o.remaining ≡ none) × (p.kind ≡ segment)
Stacked (o ∷ p ∷ q ∷ os) = ⊥

charged-Stacked :
    (n : ℕ) (o : Open)
    → Ensures (λ p. (p.kind ≡ o.kind) × (o.remaining ≡ none → p.remaining ≡ none)) (charged n o)
charged-Stacked n o = ground arith

debit-Stacked : (n : ℕ) (os : List Open) → Stacked os → Ensures Stacked (debit n os)
unfolding debit
debit-Stacked n [] h = h
debit-Stacked n (o ∷ []) h = ground arith
debit-Stacked n (o ∷ p ∷ []) h = ground arith
debit-Stacked n (o ∷ p ∷ q ∷ os) h = absurd h

outer-Stacked : (o : Open) (os : List Open) → Stacked (o ∷ os) → Stacked os
outer-Stacked o [] h = tt
outer-Stacked o (p ∷ []) (k, u, g) = g
outer-Stacked o (p ∷ q ∷ os) h = absurd h

pop_exhausted-Stacked : (os : List Open) → Stacked os → Stacked (pop_exhausted os)
unfolding pop_exhausted
pop_exhausted-Stacked [] h = h
pop_exhausted-Stacked (o ∷ os) h =
    if_cases Stacked (is_exhausted o os) _ _ (λ _. pop_exhausted-Stacked os (outer-Stacked o os h))
      (λ _. h)

-- Of a walker that goes on: its containers, and a payload counter that is not yet zero.
pub record Sound (w : Walker) : Type 0 where
  pub stacked : Stacked w.containers
  pub counting : w.state ≢ payload 0

close_exhausted-Sound : (w : Walker) → Sound w → Sound (close_exhausted w)
unfolding close_exhausted
close_exhausted-Sound w s =
    if_cases Sound (at_start w.state) _ _
      (λ _. record {
        stacked = pop_exhausted-Stacked w.containers s.stacked;
        counting = s.counting;
      })
      (λ _. s)

begin_payload-Sound : (w : Walker) (n : ℕ) → Stacked w.containers → Sound (begin_payload w n)
unfolding begin_payload
begin_payload-Sound w n s =
    close_exhausted-Sound (record w { state = if n == 0 then State.id 0 else payload n })
      (record { stacked = s; counting = not_zero n })
  where
    not_zero : (n : ℕ) → (if n == 0 then State.id 0 else payload n) ≢ payload 0
    not_zero n = ground arith

-- What a step that succeeds leaves.
abbrev Steps : Walker × Option ℕ → Type 0
Steps r = Sound r.0

sized-Sound :
    (w : Walker) (length : Option ℕ) → Stacked w.containers → Ensures Steps (sized w length)
sized-Sound w none s = tt
sized-Sound w (some n) s = begin_payload-Sound w n s

-- Exactly a segment is open.
abbrev InSegment : List Open → Type 0
InSegment (o ∷ []) = o.kind ≡ segment
InSegment _ = ⊥

InSegment-Stacked : (os : List Open) → InSegment os → Stacked os
InSegment-Stacked [] h = absurd h
InSegment-Stacked (o ∷ []) h = h
InSegment-Stacked (o ∷ p ∷ os) h = absurd h

with_cluster :
    (os : List Open) → InSegment os → Stacked (record { kind = cluster; remaining = none } ∷ os)
with_cluster [] h = absurd h
with_cluster (o ∷ []) h = (refl, refl, h)
with_cluster (o ∷ p ∷ os) h = absurd h

segment_child-Sound :
    (w : Walker) (ident : ℕ) (length : Option ℕ) (header_len : ℕ)
    → InSegment w.containers
    → Ensures Steps (segment_child w ident length header_len)
unfolding segment_child
segment_child-Sound w ident none header_len h =
    if_cases (Ensures Steps) (ident == cluster_id) _ _
      (λ _. record { stacked = with_cluster w.containers h; counting = λ e. cc }) (λ _. tt)
segment_child-Sound w ident (some n) header_len h =
    begin_payload-Sound w n (InSegment-Stacked w.containers h)

cluster_child-Sound :
    (w : Walker) (ident : ℕ) (length : Option ℕ) (header_len : ℕ)
    → Stacked w.containers
    → InSegment (outer w.containers)
    → Ensures Steps (cluster_child w ident length header_len)
unfolding cluster_child
cluster_child-Sound w ident length header_len s h =
    if_cases (Ensures Steps) (is_cluster_child ident) _ _ (λ _. sized-Sound w length s)
      (λ _.
        if_cases (Ensures Steps) (is_segment_level ident) _ _
          (λ _.
            segment_child-Sound (record w { containers = outer w.containers }) ident length
              header_len h)
          (λ _. tt))

top_level-Sound :
    (w : Walker) (ident : ℕ) (length : Option ℕ)
    → w.containers ≡ []
    → Ensures Steps (top_level w ident length)
unfolding top_level
top_level-Sound w ident length e =
    let empty : Stacked w.containers = subst Stacked (sym e) tt in
    if_cases (Ensures Steps) (not w.seen_header) _ _
      (λ _.
        if_cases (Ensures Steps) (ident == ebml_header) _ _
          (λ _. sized-Sound (record w { seen_header = true }) length empty) (λ _. tt))
      (λ _.
        if_cases (Ensures Steps) (ident == segment_id) _ _
          (λ _.
            let pushed = record w {
              seen_segment = true;
              containers = record { kind = segment; remaining = length } ∷ w.containers;
              state = State.id 0;
            } in
            close_exhausted-Sound pushed (record {
              stacked =
                  subst
                    (λ (os : List Open).
                      Stacked (record { kind = segment; remaining = length } ∷ os))
                    (sym e) refl;
              counting = λ x. cc;
            }))
          (λ _.
            if_cases (Ensures Steps) (ident == void) _ _ (λ _. sized-Sound w length empty)
              (λ _. tt)))

only_segment :
    (o : Open) (os : List Open) → Stacked (o ∷ os) → o.kind ≡ segment → InSegment (o ∷ os)
only_segment o [] s k = k
only_segment o (p ∷ []) s k = cc
only_segment o (p ∷ q ∷ os) s k = absurd s

segment_outside : (o : Open) (os : List Open) → Stacked (o ∷ os) → o.kind ≡ cluster → InSegment os
segment_outside o [] s k = cc
segment_outside o (p ∷ []) (_, _, g) k = g
segment_outside o (p ∷ q ∷ os) s k = absurd s

dispatch-Sound :
    (os : List Open) (w : Walker) (ident : ℕ) (length : Option ℕ) (header_len : ℕ)
    → w.containers ≡ os
    → Stacked os
    → Ensures Steps (dispatch os w ident length header_len)
dispatch-Sound [] w ident length n e s = top_level-Sound w ident length e
dispatch-Sound (o ∷ os) w ident length n e s = by_kind (o.kind) refl
  where
    by_kind :
        (k : Kind)
        → o.kind ≡ k
        → Ensures Steps (elim k [
          | segment ↦ segment_child w ident length n
          | cluster ↦ cluster_child w ident length n
        ])
    by_kind segment k =
        segment_child-Sound w ident length n (subst InSegment (sym e) (only_segment o os s k))
    by_kind cluster k =
        cluster_child-Sound w ident length n (subst Stacked (sym e) s)
          (subst (λ (t : List Open). InSegment (outer t)) (sym e) (segment_outside o os s k))

open_element-Sound : (w : Walker) → Stacked w.containers → Ensures Steps (open_element w)
unfolding open_element
open_element-Sound w s =
    let ident = id_value (take w.id_len w.header) in
    let value = size_value (take w.size_len (drop w.id_len w.header)) in
    let length = if value.1 then none else some value.0 in
    if_cases (Ensures Steps) (overruns length (least_left w.containers))
      (err element_overruns_parent) (dispatch w.containers w ident length (w.id_len + w.size_len))
      (λ _. tt) (λ _. dispatch-Sound w.containers w ident length (w.id_len + w.size_len) refl s)

abbrev Holding : Walker → Type 0
Holding w = Stacked w.containers

read_id_len : (len : ℕ) (w : Walker) (b : ℕ) → Holding w → Ensures Holding (with_id_len len w b)
read_id_len zero w b s = ground arith
read_id_len (suc n) w b s = s

read_size_len : (len : ℕ) (w : Walker) (b : ℕ) → Holding w → Ensures Holding (with_size_len len w b)
read_size_len zero w b s = ground arith
read_size_len (suc n) w b s = s

stored-Holding : (w : Walker) (place b : ℕ) → Holding w → Ensures Holding (stored w place b)
unfolding stored
stored-Holding w place b s =
    Ensures-bind Stacked Holding (debit 1 w.containers) _ (debit-Stacked 1 w.containers s)
      (λ os h. h)

step-Sound : (st : State) (w : Walker) (b : ℕ) → Sound w → Ensures Steps (step st w b)
unfolding step begin_payload
step-Sound (State.id len) w b s =
    Ensures-bind Holding Steps (with_id_len len w b) _ (read_id_len len w b s.stacked) (λ v h.
      Ensures-bind Holding Steps (stored v len b) _ (stored-Holding v len b h)
        (λ u k. record { stacked = k; counting = ground arith }))
step-Sound (State.size len) w b s =
    Ensures-bind Holding Steps (with_size_len len w b) _ (read_size_len len w b s.stacked) (λ v h.
      Ensures-bind Holding Steps (stored v (v.id_len + len) b) _
        (stored-Holding v (v.id_len + len) b h)
        (λ u k.
          if_cases (Ensures Steps) (len + 1 == u.size_len) (open_element u) _
            (λ _. open_element-Sound u k) (λ _. record { stacked = k; counting = λ x. cc })))
step-Sound (payload n) w b s =
    Ensures-bind Stacked Steps (debit 1 w.containers) _ (debit-Stacked 1 w.containers s.stacked)
      (λ os h. begin_payload-Sound (record w { containers = os }) (n - 1) h)

counted-Sound :
    (w : Walker) (r : W (Walker × Option ℕ)) → Sound w → Ensures Steps r → Sound (counted w r).0
unfolding counted
counted-Sound w (ok (v, large)) s h = record { stacked = h.stacked; counting = h.counting }
counted-Sound w (err fault) s h = record { stacked = s.stacked; counting = s.counting }

consume-Sound : (w : Walker) (b : ℕ) → Sound w → Sound (consume w b).0
unfolding consume
consume-Sound w b s = counted-Sound w (step w.state w b) s (step-Sound w.state w b s)

-- The walker after it was given each byte, whether it accepted it or not.
unfoldable pub after : Walker → Bytes → Walker
unfolding consume
after w [] = w
after w (b ∷ bs) = after (consume w b).0 bs

after-Sound : (w : Walker) (bs : Bytes) → Sound w → Sound (after w bs)
unfolding after
after-Sound w [] s = s
after-Sound w (b ∷ bs) s = after-Sound (consume w b).0 bs (consume-Sound w b s)

-- Whatever bytes a new EBML walker is given, it has open at most a segment and, inside it, a cluster of
-- unknown size, and a payload that it counts is never down to zero, so that counting down does not
-- underflow.
pub containers_nest :
    (bs : Bytes) → Stacked (after new bs).containers × ((after new bs).state ≢ payload 0)
unfolding new
containers_nest bs =
    let s = after-Sound new bs (record { stacked = tt; counting = λ e. cc }) in
    (s.stacked, s.counting)
