-- ===== src/Decompose/Tar/Pax/Records.antt =====
-- The records of an extended header.
use async_chunker.Decompose.Fault.{malformed}
use async_chunker.Decompose.Tar.Pax.{
  W, Overrides, position, strip_newline, set_key, apply_record, record_len, pax_round, pax_loop,
}
use async_chunker.Prelude.Words.{parse_u64}
use async_chunker.Prelude.{
  ℕ, zero, suc, ◌+◌, ◌-◌, ◌≤◌, ◌<◌, ◌≡◌, ◌≢◌, refl, ap, ◌∙◌, Option, none, some, [], ◌∷◌, ◌++◌,
  ◌==◌, arith, Bytes, length, take, drop, length-append, length-drop, inl, inr, Bool-cases, List,
  take-append, drop-append, append_assoc, All,
}
use async_chunker.Result.{ok, err, Ensures, Ensures-bind, ok_or, ◌>>=◌}

Shrinks : Bytes → Overrides × Bytes → Type 0
Shrinks rest r = length r.1 < length rest

Inside : Bytes → ℕ × ℕ → Type 0
Inside rest r = 0 < r.0

Ensures-each :
    {A B : Type 0} (Q : B → Type 0) (m : W A) (f : A → W B)
    → ((a : A) → Ensures Q (f a))
    → Ensures Q (m >>= f)
Ensures-each Q (ok a) f k = k a
Ensures-each Q (err fault) f k = tt

record_len-Inside : (offset : ℕ) (rest : Bytes) → Ensures (Inside rest) (record_len offset rest)
unfolding record_len Inside
record_len-Inside offset rest =
    Ensures-each (Inside rest)
      (ok_or (position b' ' rest) (malformed "pax record has no length" offset)) _
      (λ space.
        Ensures-each (Inside rest)
          (ok_or (parse_u64 (take space rest))
            (malformed "pax record length is not decimal" offset))
          _ (λ len. ground arith))

pax_round-Shrinks :
    (o : Overrides) (offset b : ℕ) (bs : Bytes)
    → Ensures (Shrinks (b ∷ bs)) (pax_round o offset (b ∷ bs))
unfolding pax_round Inside Shrinks
pax_round-Shrinks o offset b bs =
    Ensures-bind (Inside (b ∷ bs)) (Shrinks (b ∷ bs)) (record_len offset (b ∷ bs)) _
      (record_len-Inside offset (b ∷ bs))
      (λ r k. onwards r k (apply_record o offset (take (r.0 - r.1) (drop r.1 (b ∷ bs)))))
  where
    onwards :
        (r : ℕ × ℕ)
        → 0 < r.0
        → (next : W Overrides)
        → Ensures (Shrinks (b ∷ bs)) (next >>= λ v. ok (v, drop r.0 (b ∷ bs)))
    onwards r k (ok v) = omega (arith, length-drop r.0 (b ∷ bs))
    onwards r k (err fault) = tt

settled :
    {A : Type 0} (P : A → Type 0) (r : W A) (next : A → Option (W Overrides))
    → Ensures P r
    → ((v : A) → P v → next v ≢ none)
    → elim r [ ok v ↦ next v | err fault ↦ some (err fault) ] ≢ none
settled P (ok v) next h k = k v h
settled P (err fault) next h k = λ e. ground arith

-- Fuel of the length of the records suffices: the loop over them ends.
pub fuel_suffices :
    (fuel : ℕ) (o : Overrides) (offset : ℕ) (rest : Bytes)
    → length rest ≤ fuel
    → pax_loop fuel o offset rest ≢ none
unfolding pax_loop Shrinks
fuel_suffices fuel o offset [] h = λ e. ground arith
fuel_suffices zero o offset (b ∷ bs) h = omega arith
fuel_suffices (suc fuel) o offset (b ∷ bs) h =
    settled (Shrinks (b ∷ bs)) (pax_round o offset (b ∷ bs)) (λ v. pax_loop fuel v.0 offset v.1)
      (pax_round-Shrinks o offset b bs)
      (λ v k. fuel_suffices fuel v.0 offset v.1 (omega (arith, h, k)))

position-append :
    (b : ℕ) (xs ys : Bytes) → position b xs ≡ none → position b (xs ++ b ∷ ys) ≡ some (length xs)
unfolding position
position-append b [] ys h = ground arith
position-append b (x ∷ xs) ys h = elim (Bool-cases (x == b)) [
  | inl same ↦ ground (arith, same)
  | inr other ↦ rw (other, position-append b xs ys (ground (arith, other))) (ap some (omega arith))
]

strip_newline-append : (xs : Bytes) → strip_newline (xs ++ 10 ∷ []) ≡ some xs
unfolding strip_newline
strip_newline-append [] = refl
strip_newline-append (x ∷ []) = refl
strip_newline-append (x ∷ y ∷ xs) = rw (strip_newline-append (y ∷ xs)) refl

drop-beyond :
    {A : Type 0} (n m : ℕ) (xs ys : List A) → n ≡ length xs + m → drop n (xs ++ ys) ≡ drop m ys
drop-beyond n m [] ys e = ap (λ (k : ℕ). drop k ys) (e ∙ zero_first m)
  where
    zero_first : (m : ℕ) → 0 + m ≡ m
    zero_first m = omega arith
drop-beyond zero m (x ∷ xs) ys e = absurd (omega arith)
drop-beyond (suc n) m (x ∷ xs) ys e = drop-beyond n m xs ys (omega arith)

drop-past :
    {A : Type 0} (xs : List A) (x : A) (ys zs : List A)
    → drop (length xs + 1 + length ys) (xs ++ x ∷ (ys ++ zs)) ≡ zs
drop-past xs x ys zs =
    drop-beyond (length xs + 1 + length ys) (suc (length ys)) xs (x ∷ (ys ++ zs)) (omega arith)
    ∙ drop-append ys zs

drop-behind :
    {A : Type 0} (xs : List A) (x : A) (ys : List A) → drop (length xs + 1) (xs ++ x ∷ ys) ≡ ys
drop-behind xs x ys = drop-beyond (length xs + 1) 1 xs (x ∷ ys) refl

take-exactly : {A : Type 0} (n : ℕ) (ys zs : List A) → take (n + length ys - n) (ys ++ zs) ≡ ys
take-exactly n ys zs = ap (λ (m : ℕ). take m (ys ++ zs)) (diff n (length ys)) ∙ take-append ys zs
  where
    diff : (n m : ℕ) → n + m - n ≡ m
    diff n m = omega arith

-- The bytes of a record, behind its length.
abbrev pub assigned : Bytes → Bytes → Bytes
assigned key value = key ++ b'=' ∷ value

-- A record as it is written.
abbrev pub line : Bytes → Bytes → Bytes → Bytes
line digits key value = digits ++ b' ' ∷ (assigned key value ++ 10 ∷ [])

record_read :
    (o : Overrides) (offset : ℕ) (key value : Bytes)
    → position b'=' key ≡ none
    → apply_record o offset (assigned key value ++ 10 ∷ []) ≡ set_key o offset key value
unfolding apply_record
record_read o offset key value h =
    rw
      (
        strip_newline-append (assigned key value),
        position-append b'=' key value h,
        take-append key (b'=' ∷ value),
        drop-behind key b'=' value,
      )
      refl

len_read :
    (offset : ℕ) (digits body rest : Bytes)
    → position b' ' digits ≡ none
    → parse_u64 digits ≡ some (length digits + 1 + length body)
    → 0 < length body
    → record_len offset (digits ++ b' ' ∷ (body ++ rest))
      ≡ ok (length digits + 1 + length body, length digits + 1)
unfolding record_len
len_read offset digits body rest h e k =
    rw
      (
        position-append b' ' digits (body ++ rest) h,
        take-append digits (b' ' ∷ (body ++ rest)),
        e,
        length-append digits (b' ' ∷ (body ++ rest)),
        length-append body rest,
      )
      (ground arith)

-- The record is taken whole, and the next begins behind it.
round_read :
    (o : Overrides) (offset : ℕ) (digits key value rest : Bytes)
    → position b' ' digits ≡ none
    → position b'=' key ≡ none
    → parse_u64 digits ≡ some (length (line digits key value))
    → pax_round o offset (line digits key value ++ rest)
      ≡ (set_key o offset key value >>= λ next. ok (next, rest))
unfolding pax_round
round_read o offset digits key value rest h k e =
    let body = assigned key value ++ 10 ∷ [] in
    rw (append_assoc digits (b' ' ∷ body) rest) (
      rw
        (
          len_read offset digits body rest h
              (e ∙ ap some (ground (arith, length-append digits (b' ' ∷ body))))
              (ground (arith, length-append (assigned key value) (10 ∷ []))),
          drop-behind digits b' ' (body ++ rest),
          take-exactly (length digits + 1) body rest,
          record_read o offset key value k,
          drop-past digits b' ' body rest,
        )
        refl)

-- Records that are written one behind another: the digits of the length, the key and the value.
abbrev pub written : List (Bytes × Bytes × Bytes) → Bytes
written [] = []
written ((digits, key, value) ∷ rs) = line digits key value ++ written rs

abbrev pub IsRecord : Bytes × Bytes × Bytes → Type 0
IsRecord (digits, key, value) =
    (position b' ' digits ≡ none)
    × (position b'=' key ≡ none)
    × (parse_u64 digits ≡ some (length (line digits key value)))

-- The keys in turn.
abbrev pub set_keys : Overrides → ℕ → List (Bytes × Bytes × Bytes) → W Overrides
set_keys o offset [] = ok o
set_keys o offset ((digits, key, value) ∷ rs) =
    set_key o offset key value >>= λ next. set_keys next offset rs

line-long : (digits key value : Bytes) → 0 < length (line digits key value)
line-long digits key value =
    omega (arith, length-append digits (b' ' ∷ (assigned key value ++ 10 ∷ [])))

pub written-long : (rs : List (Bytes × Bytes × Bytes)) → length rs ≤ length (written rs)
written-long [] = omega arith
written-long ((digits, key, value) ∷ rs) = omega (
  arith,
  length-append (line digits key value) (written rs),
  line-long digits key value,
  written-long rs,
)

-- What follows a round of the loop.
abbrev resume : ℕ → ℕ → W (Overrides × Bytes) → Option (W Overrides)
resume fuel offset (ok r) = pax_loop fuel r.0 offset r.1
resume fuel offset (err fault) = some (err fault)

-- The loop at records that are not empty.
loop_round :
    (fuel : ℕ) (o : Overrides) (offset : ℕ) (rest : Bytes)
    → 0 < length rest
    → pax_loop (suc fuel) o offset rest ≡ resume fuel offset (pax_round o offset rest)
unfolding pax_loop
loop_round fuel o offset [] h = absurd (omega arith)
loop_round fuel o offset (b ∷ bs) h = refl

pub records_read :
    (fuel : ℕ) (o : Overrides) (offset : ℕ) (rs : List (Bytes × Bytes × Bytes))
    → All IsRecord rs
    → length rs ≤ fuel
    → pax_loop fuel o offset (written rs) ≡ some (set_keys o offset rs)
unfolding pax_loop
records_read fuel o offset [] h le = refl
records_read zero o offset (r ∷ rs) h le = absurd (omega arith)
records_read (suc fuel) o offset ((digits, key, value) ∷ rs) ((s, e, n), h) le =
    loop_round fuel o offset (line digits key value ++ written rs) (
      omega (arith, length-append (line digits key value) (written rs), line-long digits key value))
    ∙ rw (round_read o offset digits key value (written rs) s e n) (
        (onwards (set_key o offset key value)
          (λ next. records_read fuel next offset rs h (omega (arith, le)))))
  where
    onwards :
        (r : W Overrides)
        → ((next : Overrides)
            → pax_loop fuel next offset (written rs) ≡ some (set_keys next offset rs))
        → resume fuel offset (r >>= λ next. ok (next, written rs))
          ≡ some (r >>= λ next. set_keys next offset rs)
    onwards (ok next) k = k next
    onwards (err fault) k = refl
