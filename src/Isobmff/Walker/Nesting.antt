-- ===== src/Isobmff/Walker/Nesting.antt =====
-- No box runs past the box around it, and a payload that was declared is always read to its end.
use mathlib.Core.Path.{subst}
use async_chunker.Isobmff.Boxes.{is_container, may_begin_stream}
use async_chunker.Isobmff.Walker.Stack.{
  Below, Nested, Debited, debit-Debited, Debited-Below, Debited-Nested, pop_exhausted-Nested,
  debit_within,
}
use async_chunker.Isobmff.Walker.{
  Walker, State, payload, payload_to_end, W, new, max_depth, header_min, header_len, kind, debit,
  close_exhausted, after_header, enter, open_box, collected, step, consume, counted, payload_of,
  overruns, declared_size, at_start,
}
use async_chunker.Prelude.{
  ℕ, zero, suc, ◌+◌, ◌-◌, ◌≡◌, refl, sym, inl, inr, Option, none, some, List, [], ◌∷◌, true, false,
  not, arith, ◌≢◌, length, set, leb, ltb, ◌==◌, ◌&&◌, Bool-cases, if◌then◌else◌,
}
use async_chunker.Result.{ok, err, Ensures, Ensures-bind}

-- The payload being counted fits into the innermost box.
abbrev pub Covered : State → List (Option ℕ) → Type 0
Covered (payload remaining) xs = Below remaining xs
Covered _ xs = Unit

pub record Nests (w : Walker) : Type 0 where
  pub stack : Nested w.open_boxes
  pub covered : Covered w.state w.open_boxes

-- A declared payload: open-ended only at top level, otherwise within the innermost box.
abbrev Fits : Option ℕ → List (Option ℕ) → Type 0
Fits none xs = xs ≡ []
Fits (some n) xs = Below n xs

overruns-Below : (n : ℕ) (xs : List (Option ℕ)) → overruns n xs ≡ false → Below n xs
unfolding overruns
overruns-Below n [] h = tt
overruns-Below n (none ∷ xs) h = tt
overruns-Below n (some a ∷ xs) h = ground arith

payload_of-Fits :
    (size : Option ℕ) (len : ℕ) (xs : List (Option ℕ))
    → Ensures (λ p. Fits p xs) (payload_of size len xs)
unfolding payload_of
payload_of-Fits none len [] = refl
payload_of-Fits none len (x ∷ xs) = tt
payload_of-Fits (some size) len xs = elim (Bool-cases (ltb size len)) [
  | inl small ↦ rw small tt
  | inr fine ↦ rw fine (elim (Bool-cases (overruns (size - len) xs)) [
    | inl over ↦ rw over tt
    | inr within ↦ rw within (overruns-Below (size - len) xs within)
  ])
]

close_exhausted-Nests : (w : Walker) → Nests w → Nests (close_exhausted w)
unfolding close_exhausted
close_exhausted-Nests w n = elim (Bool-cases (at_start w.state)) [
  | inl start ↦ rw start (record {
    stack = pop_exhausted-Nested w.open_boxes n.stack;
    covered = uncovered w.state _ start;
  })
  | inr inside ↦ rw inside n
]
  where
    uncovered : (s : State) (xs : List (Option ℕ)) → at_start s ≡ true → Covered s xs
    uncovered (State.header len) xs h = tt
    uncovered (payload n) xs h = cc
    uncovered payload_to_end xs h = tt

pushed : (p : Option ℕ) (xs : List (Option ℕ)) → Fits p xs → Nested xs → Nested (p ∷ xs)
pushed none xs f n = f
pushed (some a) xs f n = (f, n)

after_header-Covered :
    (p : Option ℕ) (xs : List (Option ℕ)) → Fits p xs → Covered (after_header p) xs
unfolding after_header
after_header-Covered none xs f = tt
after_header-Covered (some zero) xs f = tt
after_header-Covered (some (suc n)) xs f = f

abbrev Stepped : Walker × Option ℕ → Type 0
Stepped r = Nests r.0

enter-Nests :
    (w : Walker) (p : Option ℕ)
    → Nested w.open_boxes
    → Fits p w.open_boxes
    → Ensures Stepped (enter w p)
unfolding enter
enter-Nests w p n f = elim (Bool-cases (is_container (kind w.header))) [
  | inl container ↦ rw container (elim (Bool-cases (length w.open_boxes == max_depth)) [
    | inl full ↦ rw full tt
    | inr space ↦ rw space (
        close_exhausted-Nests (record w { open_boxes = p ∷ w.open_boxes; state = State.header 0 })
          (record { stack = pushed p w.open_boxes f n; covered = tt }))
  ])
  | inr leaf ↦ rw leaf (
      close_exhausted-Nests (record w { state = after_header p })
        (record { stack = n; covered = after_header-Covered p w.open_boxes f }))
]

open_box-Nests : (w : Walker) → Nested w.open_boxes → Ensures Stepped (open_box w)
unfolding open_box
open_box-Nests w n =
    elim (Bool-cases (not w.seen_first && not (may_begin_stream (kind w.header)))) [
      | inl bad ↦ rw bad tt
      | inr fine ↦ rw fine (
          Ensures-bind (λ p. Fits p w.open_boxes) Stepped
            (payload_of (declared_size w.header) (header_len w.header) w.open_boxes) _
            (payload_of-Fits (declared_size w.header) (header_len w.header) w.open_boxes)
            (λ p f. enter-Nests (record w { seen_first = true }) p n f))
    ]

collected-Nests :
    (w : Walker) (len : ℕ)
    → w.state ≡ State.header len
    → Nested w.open_boxes
    → Ensures Stepped (collected w len)
unfolding collected
collected-Nests w len e n = elim (Bool-cases (leb header_min len && len == header_len w.header)) [
  | inl complete ↦ rw complete (open_box-Nests w n)
  | inr more ↦
      rw more
        (record { stack = n; covered = subst (λ (s : State). Covered s w.open_boxes) (sym e) tt })
]

-- Counting one byte off a payload.
counted_down :
    (n : ℕ) (xs : List (Option ℕ))
    → Below (n - 1) xs
    → Covered (if n - 1 == 0 then State.header 0 else payload (n - 1)) xs
counted_down n xs b = elim (Bool-cases (n - 1 == 0)) [ inl z ↦ rw z tt | inr m ↦ rw m b ]

step-Nests :
    (s : State) (w : Walker) (byte : ℕ)
    → w.state ≡ s
    → (s ≢ payload 0)
    → Nests w
    → Ensures Stepped (step s w byte)
unfolding step
step-Nests (State.header len) w byte e p n =
    Ensures-bind (Debited 1 w.open_boxes) Stepped (debit 1 w.open_boxes) _
      (debit-Debited 1 w.open_boxes)
      (λ ys paid.
        collected-Nests
          (record w {
            header = set w.header len byte;
            state = State.header (len + 1);
            open_boxes = ys;
          })
          (len + 1) refl (Debited-Nested 1 w.open_boxes ys paid n.stack))
step-Nests (payload zero) w byte e p n = absurd (p refl)
step-Nests (payload (suc k)) w byte e p n =
    Ensures-bind (Debited 1 w.open_boxes) Stepped (debit 1 w.open_boxes) _
      (debit-Debited 1 w.open_boxes)
      (λ ys paid.
        let c : Below (suc k) w.open_boxes =
          subst (λ (s : State). Covered s w.open_boxes) e n.covered in
        close_exhausted-Nests
          (record w {
            state = if suc k - 1 == 0 then State.header 0 else payload (suc k - 1);
            open_boxes = ys;
          })
          (record {
            stack = Debited-Nested 1 w.open_boxes ys paid n.stack;
            covered =
                counted_down (suc k) ys
                  (Debited-Below 1 (suc k) (suc k - 1) w.open_boxes ys paid c (omega arith));
          }))
step-Nests payload_to_end w byte e p n = n

counted-Nests :
    (w : Walker) (r : W (Walker × Option ℕ)) → Nests w → Ensures Stepped r → Nests (counted w r).0
unfolding counted
counted-Nests w (ok (w', large)) n h = record { stack = h.stack; covered = h.covered }
counted-Nests w (err fault) n h = record { stack = n.stack; covered = n.covered }

pub consume-Nests :
    (w : Walker) (byte : ℕ) → w.state ≢ payload 0 → Nests w → Nests (consume w byte).0
unfolding consume
consume-Nests w byte p n =
    counted-Nests w (step w.state w byte) n (step-Nests w.state w byte refl p n)

pub new-Nests : Nests new
unfolding new
new-Nests = record { stack = tt; covered = tt }

-- A payload byte is charged to every open box, and none of them is short of it.
pub payload_step :
    (w : Walker) (k byte : ℕ)
    → w.state ≡ payload (suc k)
    → Nests w
    → (ys : List (Option ℕ)) × (debit 1 w.open_boxes ≡ ok ys)
payload_step w k byte e n =
    debit_within 1 (suc k) w.open_boxes (omega arith)
      (subst (λ (s : State). Covered s w.open_boxes) e n.covered) n.stack
