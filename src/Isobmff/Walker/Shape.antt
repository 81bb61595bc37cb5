-- ===== src/Isobmff/Walker/Shape.antt =====
-- The walker's indices stay in range, its depth stays bounded, and its counters never underflow.
use mathlib.Core.Path.{subst}
use native.Mathlib.Decide.{dec_lt}
use async_chunker.Isobmff.Boxes.{is_container, may_begin_stream}
use async_chunker.Isobmff.Walker.Stack.{Debited, debit-Debited, Debited-length}
use async_chunker.Isobmff.Walker.{
  Walker, State, payload, payload_to_end, W, new, max_depth, header_max, header_min, header_len,
  size32, kind, debit, pop_exhausted, close_exhausted, after_header, enter, open_box, collected,
  step, consume, counted, payload_of, declared_size, at_start,
}
use async_chunker.Prelude.{
  ℕ, zero, suc, ◌+◌, ◌-◌, ◌≤◌, ◌<◌, ◌≡◌, refl, sym, ap, ◌∙◌, ◌⊎◌, inl, inr, Option, none, some,
  List, [], ◌∷◌, true, not, arith, Bytes, length, length-set, set, take, drop, leb, ◌==◌, ◌&&◌,
  Bool-cases, if◌then◌else◌,
}
use async_chunker.Result.{Result, ok, err, Ensures, Ensures-bind}

-- A header is collected up to its length and no further; a payload still to be counted is not empty.
abbrev pub Pending : Bytes → State → Type 0
Pending h (State.header len) = (len < header_min) ⊎ ((header_min ≤ len) × (len < header_len h))
Pending h (payload remaining) = 0 < remaining
Pending h payload_to_end = Unit

pub record Shape (w : Walker) : Type 0 where
  pub buffer : length w.header ≡ header_max
  pub depth : length w.open_boxes ≤ max_depth
  pub counting : Pending w.header w.state

header_len_bounds : (h : Bytes) → (header_min ≤ header_len h) × (header_len h ≤ header_max)
unfolding header_len
header_len_bounds h = ground arith

-- The place that the next header byte is written to lies inside the buffer.
pub header_index_in_range :
    (w : Walker) (len : ℕ) → Shape w → w.state ≡ State.header len → len < header_max
header_index_in_range w len s e =
    let c : Pending w.header (State.header len) = subst (Pending w.header) e s.counting in
    omega (arith, header_len_bounds w.header)

-- A byte behind the first eight does not change the length that a header implies.
take-set : (n i : ℕ) (xs : Bytes) (v : ℕ) → n ≤ i → take n (set xs i v) ≡ take n xs
take-set zero i xs v h = refl
take-set (suc n) i [] v h = refl
take-set (suc n) zero (x ∷ xs) v h = elim h [ ]
take-set (suc n) (suc i) (x ∷ xs) v h = ap (◌∷◌ x) (take-set n i xs v (omega arith))

take-drop-set :
    (n k i : ℕ) (xs : Bytes) (v : ℕ) → n + k ≤ i → take n (drop k (set xs i v)) ≡ take n (drop k xs)
take-drop-set n zero i xs v h = take-set n i xs v (omega arith)
take-drop-set n (suc k) i [] v h = refl
take-drop-set n (suc k) zero (x ∷ xs) v h = absurd (omega arith)
take-drop-set n (suc k) (suc i) (x ∷ xs) v h = take-drop-set n k i xs v (omega arith)

header_len-set : (h : Bytes) (i v : ℕ) → header_min ≤ i → header_len (set h i v) ≡ header_len h
unfolding header_len size32 kind
header_len-set h i v e = rw (take-set 4 i h v (omega arith), take-drop-set 4 4 i h v (omega arith))

length-pop_exhausted : (xs : List (Option ℕ)) → length (pop_exhausted xs) ≤ length xs
unfolding pop_exhausted
length-pop_exhausted [] = omega arith
length-pop_exhausted (none ∷ xs) = omega arith
length-pop_exhausted (some zero ∷ xs) = omega (arith, length-pop_exhausted xs)
length-pop_exhausted (some (suc n) ∷ xs) = omega arith

close_exhausted-Shape : (w : Walker) → Shape w → Shape (close_exhausted w)
unfolding close_exhausted
close_exhausted-Shape w s = elim (Bool-cases (at_start w.state)) [
  | inl start ↦ rw start (record {
    buffer = s.buffer;
    depth = let d = s.depth in omega (arith, length-pop_exhausted w.open_boxes);
    counting = s.counting;
  })
  | inr inside ↦ rw inside s
]

after_header-Pending : (h : Bytes) (p : Option ℕ) → Pending h (after_header p)
unfolding after_header
after_header-Pending h none = tt
after_header-Pending h (some zero) = inl (omega arith)
after_header-Pending h (some (suc n)) = omega arith

counted_down :
    (h : Bytes) (n : ℕ) → Pending h (if n - 1 == 0 then State.header 0 else payload (n - 1))
counted_down h n = elim (Bool-cases (n - 1 == 0)) [
  | inl z ↦ rw z (inl (omega arith))
  | inr m ↦ rw m (ground arith)
]

any : {E A : Type 0} (m : Result E A) → Ensures (λ _. Unit {0}) m
any (ok a) = tt
any (err e) = tt

-- What a successful step leaves: the walker, and the header length that it reports.
abbrev Stepped : Walker × Option ℕ → Type 0
Stepped r = Shape r.0

enter-Shape :
    (w : Walker) (p : Option ℕ)
    → length w.header ≡ header_max
    → length w.open_boxes ≤ max_depth
    → Ensures Stepped (enter w p)
unfolding enter
enter-Shape w p b d = elim (Bool-cases (is_container (kind w.header))) [
  | inl container ↦ rw container (elim (Bool-cases (length w.open_boxes == max_depth)) [
    | inl full ↦ rw full tt
    | inr space ↦ rw space (
        close_exhausted-Shape (record w { open_boxes = p ∷ w.open_boxes; state = State.header 0 })
          (record { buffer = b; depth = ground arith; counting = inl (omega arith) }))
  ])
  | inr leaf ↦ rw leaf (
      close_exhausted-Shape (record w { state = after_header p })
        (record { buffer = b; depth = d; counting = after_header-Pending w.header p }))
]

open_box-Shape :
    (w : Walker)
    → length w.header ≡ header_max
    → length w.open_boxes ≤ max_depth
    → Ensures Stepped (open_box w)
unfolding open_box
open_box-Shape w b d =
    elim (Bool-cases (not w.seen_first && not (may_begin_stream (kind w.header)))) [
      | inl bad ↦ rw bad tt
      | inr fine ↦ rw fine (
          Ensures-bind (λ _. Unit {0}) Stepped
            (payload_of (declared_size w.header) (header_len w.header) w.open_boxes) _ (any _)
            (λ p _. enter-Shape (record w { seen_first = true }) p b d))
    ]

-- One more header byte: either the header is complete, or there is room for another.
collected-Shape :
    (w : Walker) (len : ℕ)
    → length w.header ≡ header_max
    → length w.open_boxes ≤ max_depth
    → w.state ≡ State.header len
    → (len < header_min) ⊎ ((header_min ≤ len) × (len ≤ header_len w.header))
    → Ensures Stepped (collected w len)
unfolding collected
collected-Shape w len b d e r =
    elim (Bool-cases (leb header_min len && len == header_len w.header)) [
      | inl complete ↦ rw complete (open_box-Shape w b d)
      | inr more ↦ rw more (record {
        buffer = b;
        depth = d;
        counting = subst (Pending w.header) (sym e) (ground arith);
      })
    ]

next_index :
    (h : Bytes) (len byte : ℕ)
    → Pending h (State.header len)
    → (len + 1 < header_min) ⊎ ((header_min ≤ len + 1) × (len + 1 ≤ header_len (set h len byte)))
next_index h len byte (inl few) =
    let b = header_len_bounds (set h len byte) in
    elim (dec_lt (len + 1) header_min) [
      | yes more ↦ inl more
      | no eight ↦ inr (omega arith, omega arith)
    ]
next_index h len byte (inr (many, below)) =
    inr (omega arith, omega (arith, header_len-set h len byte many))

step-Shape :
    (s : State) (w : Walker) (byte : ℕ) → w.state ≡ s → Shape w → Ensures Stepped (step s w byte)
unfolding step
step-Shape (State.header len) w byte e s =
    Ensures-bind (Debited 1 w.open_boxes) Stepped (debit 1 w.open_boxes) _
      (debit-Debited 1 w.open_boxes)
      (λ ys paid.
        let c : Pending w.header (State.header len) = subst (Pending w.header) e s.counting in
        collected-Shape
          (record w {
            header = set w.header len byte;
            state = State.header (len + 1);
            open_boxes = ys;
          })
          (len + 1) (length-set w.header len byte ∙ s.buffer)
          (omega (arith, Debited-length 1 w.open_boxes ys paid, s.depth)) refl
          (next_index w.header len byte c))
step-Shape (payload remaining) w byte e s =
    Ensures-bind (Debited 1 w.open_boxes) Stepped (debit 1 w.open_boxes) _
      (debit-Debited 1 w.open_boxes)
      (λ ys paid.
        close_exhausted-Shape
          (record w {
            state = if remaining - 1 == 0 then State.header 0 else payload (remaining - 1);
            open_boxes = ys;
          })
          (record {
            buffer = s.buffer;
            depth = omega (arith, Debited-length 1 w.open_boxes ys paid, s.depth);
            counting = counted_down w.header remaining;
          }))
step-Shape payload_to_end w byte e s = s

counted-Shape :
    (w : Walker) (r : W (Walker × Option ℕ)) → Shape w → Ensures Stepped r → Shape (counted w r).0
unfolding counted
counted-Shape w (ok (w', large)) s h = record {
  buffer = h.buffer;
  depth = h.depth;
  counting = h.counting;
}
counted-Shape w (err fault) s h = record {
  buffer = s.buffer;
  depth = s.depth;
  counting = s.counting;
}

pub new-Shape : Shape new
unfolding new
new-Shape = record { buffer = refl; depth = omega arith; counting = inl (omega arith) }

-- From a walker in shape, a byte leaves one in shape, whether it is accepted or not.
pub consume-Shape : (w : Walker) (byte : ℕ) → Shape w → Shape (consume w byte).0
unfolding consume
consume-Shape w byte s = counted-Shape w (step w.state w byte) s (step-Shape w.state w byte refl s)
