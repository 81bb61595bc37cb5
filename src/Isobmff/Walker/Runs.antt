-- ===== src/Isobmff/Walker/Runs.antt =====
-- The walker over many bytes.
use mathlib.Core.Path.{subst}
use async_chunker.Isobmff.Walker.Nesting.{Nests, Covered, new-Nests, consume-Nests, payload_step}
use async_chunker.Isobmff.Walker.Shape.{
  Shape, header_index_in_range, Pending, new-Shape, consume-Shape,
}
use async_chunker.Isobmff.Walker.Stack.{Nested}
use async_chunker.Isobmff.Walker.{
  Walker, State, payload, W, new, close_exhausted, step, consume, counted, at_start, moved_on,
  header_max, max_depth,
}
use async_chunker.Prelude.{
  ℕ, suc, ◌+◌, ◌-◌, ◌<◌, ◌≡◌, ◌≢◌, ◌≤◌, refl, ap, ◌∙◌, inl, inr, Option, none, List, [], ◌∷◌, Bool,
  false, arith, Bytes, length, ◌==◌, Bool-cases, if◌then◌else◌,
}
use async_chunker.Result.{ok, err, Ensures, Ensures-ok}

-- `consume` on each byte, up to the first fault.
abbrev continue : (Walker → W Walker) → Walker × W (Option ℕ) → W Walker
continue k (w, ok large) = k w
continue k (w, err fault) = err fault

unfoldable pub walk : Walker → Bytes → W Walker
unfolding consume
walk w [] = ok w
walk w (b ∷ bs) = continue (λ w'. walk w' bs) (consume w b)

pub record Sound (w : Walker) : Type 0 where
  pub shape : Shape w
  pub nests : Nests w

not_empty_payload : (w : Walker) → Shape w → w.state ≢ payload 0
not_empty_payload w s e =
    let p : Pending w.header (payload 0) = subst (Pending w.header) e s.counting in omega arith

pub consume-Sound : (w : Walker) (b : ℕ) → Sound w → Sound (consume w b).0
consume-Sound w b s = record {
  shape = consume-Shape w b s.shape;
  nests = consume-Nests w b (not_empty_payload w s.shape) s.nests;
}

continue-Sound :
    (k : Walker → W Walker) (r : Walker × W (Option ℕ))
    → Sound r.0
    → ((w : Walker) → Sound w → Ensures Sound (k w))
    → Ensures Sound (continue k r)
continue-Sound k (w, ok large) s each = each w s
continue-Sound k (w, err fault) s each = tt

walk-Sound : (w : Walker) (bs : Bytes) → Sound w → Ensures Sound (walk w bs)
unfolding walk
walk-Sound w [] s = s
walk-Sound w (b ∷ bs) s =
    continue-Sound (λ w'. walk w' bs) (consume w b) (consume-Sound w b s)
      (λ w' t. walk-Sound w' bs t)

-- However many bytes a new walker has accepted, the place of the next header byte is inside the header
-- buffer, at most 16 boxes are open, no payload counter is zero (so that counting down never underflows),
-- every open box has at least as much left as the box inside it and the payload being counted, and only
-- the outermost box can be open-ended.
pub walk_invariant :
    (bs : Bytes) (w : Walker)
    → walk new bs ≡ ok w
    → ((len : ℕ) → w.state ≡ State.header len → len < header_max)
      × (length w.open_boxes ≤ max_depth)
      × (w.state ≢ payload 0)
      × Nested w.open_boxes
      × Covered w.state w.open_boxes
walk_invariant bs w e =
    let s =
      Ensures-ok Sound (walk new bs) w e
        (walk-Sound new bs (record { shape = new-Shape; nests = new-Nests })) in
    (
      λ len h. header_index_in_range w len s.shape h,
      s.shape.depth,
      not_empty_payload w s.shape,
      s.nests.stack,
      s.nests.covered,
    )

-- The walker behind one byte of a payload of k + 1 bytes, with the stack `ys` of debited boxes.
paid_walker : Walker → ℕ → List (Option ℕ) → Walker
paid_walker w k ys = moved_on (
    close_exhausted (record w {
      state = if suc k - 1 == 0 then State.header 0 else payload (suc k - 1);
      open_boxes = ys;
    }))

close_exhausted-keeps :
    (w : Walker) → ((close_exhausted w).state ≡ w.state) × ((close_exhausted w).offset ≡ w.offset)
unfolding close_exhausted
close_exhausted-keeps w = elim (Bool-cases (at_start w.state)) [
  | inl start ↦ rw start (refl, refl)
  | inr inside ↦ rw inside (refl, refl)
]

paid_walker-keeps :
    (w : Walker) (k : ℕ) (ys : List (Option ℕ))
    → ((paid_walker w k ys).state ≡ (if k == 0 then State.header 0 else payload k))
      × ((paid_walker w k ys).offset ≡ w.offset + 1)
unfolding paid_walker
paid_walker-keeps w k ys =
    let next = record w {
      state = if suc k - 1 == 0 then State.header 0 else payload (suc k - 1);
      open_boxes = ys;
    } in
    let (st, off) = close_exhausted-keeps next in
    let less : suc k - 1 ≡ k = omega arith in
    (
      st ∙ ap (λ (n : ℕ). if n == 0 then State.header 0 else payload n) less,
      ap (λ (n : ℕ). n + 1) off,
    )

-- A byte of a payload is accepted.
payload_byte :
    (w : Walker) (k byte : ℕ)
    → w.state ≡ payload (suc k)
    → Sound w
    → (ys : List (Option ℕ)) × (consume w byte ≡ (paid_walker w k ys, ok none))
unfolding consume counted step paid_walker
payload_byte w k byte e s =
    let (ys, paid) = payload_step w k byte e s.nests in
    (ys, ap (λ (t : State). counted w (step t w byte)) e ∙ rw paid refl)

-- A payload of n bytes that a sound walker has begun is accepted whole, whatever its bytes are, and the
-- walker then stands at the start of a box, n bytes on.
pub payload_run :
    (bs : Bytes) (w : Walker)
    → Sound w
    → w.state ≡ payload (length bs)
    → (v : Walker) × (walk w bs ≡ ok v)
      × (v.state ≡ State.header 0)
      × (v.offset ≡ w.offset + length bs)
unfolding walk
payload_run [] w s e = absurd (not_empty_payload w s.shape e)
payload_run (b ∷ []) w s e =
    let (ys, c) = payload_byte w 0 b e s in
    let (st, off) = paid_walker-keeps w 0 ys in (paid_walker w 0 ys, rw c refl, st, off)
payload_run (b ∷ c ∷ bs) w s e =
    let k = length (c ∷ bs) in
    let (ys, eaten) = payload_byte w k b e s in
    let (st, off) = paid_walker-keeps w k ys in
    let next = paid_walker w k ys in
    let some_left : (k == 0) ≡ false = ground arith in
    let sound : Sound next =
      subst (λ (r : Walker × W (Option ℕ)). Sound r.0) eaten (consume-Sound w b s) in
    let (v, walked, stv, offv) =
      payload_run (c ∷ bs) next sound
        (st ∙ ap (λ (t : Bool). if t then State.header 0 else payload k) some_left) in
    (v, rw eaten walked, stv, omega (arith, off, offv))
