-- ===== src/Tests/Zeros.antt =====
-- A generic chunker over a table of zeros, which cuts at the minimum: a long run for the theorems.
use async_chunker.Constants.{chunk_min, chunk_target, chunk_max}
use async_chunker.Gear
use async_chunker.Gear.{Blake3}
use async_chunker.Generic.Stream.{generic_resync}
use async_chunker.Generic
use async_chunker.Generic.{GenericCdcChunker, push_byte, cut_here, taken}
use async_chunker.Outcome.Feed.{feed-append}
use async_chunker.Outcome.{Outcome, feed, and_then, succeed}
use async_chunker.Prelude.{
  ℕ, zero, suc, ◌+◌, ◌<◌, ◌≡◌, refl, sym, ap, ◌∙◌, [], ◌∷◌, ◌++◌, Bytes, length, length-append,
  replicate, arith, append_assoc, append-nil, ltb, leb, true, false,
}

-- Every entry of the table is zero.
abbrev silent : Blake3
silent = record { xof = λ seed i. 0; xof_byte = λ seed i. omega arith }

-- A new chunker, but for what it holds.
abbrev with : Bytes → GenericCdcChunker
with held = record (Generic.new silent) { buffer = held }

quiet_byte :
    (held : Bytes)
    → length held + 1 < chunk_min
    → push_byte (with held) 0 ≡ succeed (with (held ++ 0 ∷ []))
unfolding push_byte cut_here Generic.new Gear.new Gear.from_be Gear.update
quiet_byte held h =
    let small : ltb (length (held ++ 0 ∷ [])) chunk_min ≡ true =
      let l = length-append {0} held (0 ∷ []) in ground arith in
    rw small refl

quiet_run :
    (n : ℕ) (held : Bytes)
    → length held + n < chunk_min
    → feed push_byte (with held) (replicate n 0) ≡ succeed (with (held ++ replicate n 0))
unfolding feed
quiet_run zero held h = ap (λ (t : Bytes). succeed (with t)) (sym (append-nil held))
quiet_run (suc n) held h =
    ap (λ (o : Outcome GenericCdcChunker). and_then o (λ c. feed push_byte c (replicate n 0)))
      (quiet_byte held (omega arith))
    ∙ quiet_run n (held ++ 0 ∷ []) (omega (arith, length-append {0} held (0 ∷ [])))
    ∙ ap (λ (t : Bytes). succeed (with t)) (append_assoc held (0 ∷ []) (replicate n 0))

last_byte :
    (held : Bytes)
    → length held + 1 ≡ chunk_min
    → (feed push_byte (with held) (0 ∷ [])).state.buffer ≡ []
unfolding feed and_then push_byte cut_here Generic.new Gear.new Gear.from_be Gear.update Gear.cuts
last_byte held h =
    let l = length-append {0} held (0 ∷ []) in
    let small : ltb (length (held ++ 0 ∷ [])) chunk_min ≡ false = ground arith in
    let large : leb chunk_max (length (held ++ 0 ∷ [])) ≡ false = ground arith in
    let below : ltb (length (held ++ 0 ∷ [])) chunk_target ≡ true = ground arith in
    rw (small, large, below) refl

abbrev zeros : ℕ → Bytes
zeros n = replicate n 0

length-replicate : (n : ℕ) → length (zeros n) ≡ n
length-replicate zero = refl
length-replicate (suc n) = ap suc (length-replicate n)

-- A run of the minimum length closes a chunk and leaves nothing.
closes :
    (n : ℕ)
    → n + 1 ≡ chunk_min
    → (Generic.push (Generic.new silent) (zeros n ++ 0 ∷ [])).state.buffer ≡ []
unfolding Generic.push and_then Generic.new
closes n h =
    let l = length-replicate n in
    ap (λ (o : Outcome GenericCdcChunker). o.state.buffer)
      (feed-append push_byte (with []) (replicate n 0) (0 ∷ [])
        ∙ ap (λ (o : Outcome GenericCdcChunker). and_then o (λ c. feed push_byte c (0 ∷ [])))
            (quiet_run n [] (omega arith)))
    ∙ last_byte (zeros n) (omega (arith, l))

abbrev run : Bytes
run = zeros 16383 ++ 0 ∷ []

generic_resync_example :
    (Generic.push (Generic.new silent) (run ++ 7 ∷ 8 ∷ [])).emitted
    ≡ (Generic.push (Generic.new silent) run).emitted
      ++ (Generic.push (Generic.new silent) (7 ∷ 8 ∷ [])).emitted
generic_resync_example = generic_resync silent run (7 ∷ 8 ∷ []) (closes 16383 refl)
