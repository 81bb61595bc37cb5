-- ===== src/Boundaries.antt =====
-- src/chunker/boundaries.rs: the chunk boundaries of a payload that is in memory.
use async_chunker.Chunker.{ChunkerLaws, drive}
use async_chunker.Chunker.Whole.{drive-Chunked}
use async_chunker.Errors.{ChunkError}
use async_chunker.Outcome.{Outcome}
use async_chunker.Prelude.{
  ℕ, ◌+◌, ◌-◌, ◌≡◌, refl, sym, ap, ◌∙◌, List, [], ◌∷◌, ◌++◌, Option, none, some, arith, Bytes,
  length, length-append, take, drop, take-append, drop-append, append_assoc, flatten, map,
}
use async_chunker.Result.{Result, ok, err}

-- The closure `record`, called for each chunk: `end` runs, and is pushed.
unfoldable pub ends_from : ℕ → List Bytes → List ℕ
ends_from start [] = []
ends_from start (chunk ∷ chunks) = (start + length chunk) ∷ ends_from (start + length chunk) chunks

-- What `of` returns once the chunker has run.
unfoldable pub collect : Option ChunkError → List Bytes → Result ChunkError (List ℕ)
unfolding ends_from
collect none chunks = ok (ends_from 0 chunks)
collect (some e) chunks = err e

-- `ChunkBoundaries::of` for the chunker that the profile opens.
unfoldable pub boundaries_of :
    {S : Type 0}
    → (S → Bytes → Outcome S)
    → (S → Outcome S)
    → S
    → Bytes
    → Result ChunkError (List ℕ)
unfolding collect drive
boundaries_of push finish new bytes =
    let o = drive push finish new bytes in collect o.error o.emitted

-- `ranges`, with `start` as it runs.
unfoldable pub ranges_from : ℕ → List ℕ → List (ℕ × ℕ)
ranges_from start [] = []
ranges_from start (end ∷ ends) = (start, end) ∷ ranges_from end ends

unfoldable pub ranges : List ℕ → List (ℕ × ℕ)
unfolding ranges_from
ranges = ranges_from 0

-- `&bytes[range]`
abbrev pub slice : Bytes → ℕ × ℕ → Bytes
slice bytes range = take (range.1 - range.0) (drop range.0 bytes)

abbrev all_slices : Bytes → ℕ → List Bytes → List Bytes
all_slices bytes start chunks = map (slice bytes) (ranges_from start (ends_from start chunks))

slice-chunk :
    (front chunk rest : Bytes)
    → slice (front ++ (chunk ++ rest)) (length front, length front + length chunk) ≡ chunk
slice-chunk front chunk rest =
    ap (take {0} (length front + length chunk - length front)) (drop-append front (chunk ++ rest))
    ∙ ap (λ (n : ℕ). take n (chunk ++ rest)) (omega arith)
    ∙ take-append chunk rest

slices-chunks :
    (front : Bytes) (chunks : List Bytes)
    → all_slices (front ++ flatten chunks) (length front) chunks ≡ chunks
unfolding ends_from ranges_from flatten
slices-chunks front [] = refl
slices-chunks front (chunk ∷ chunks) =
    let later = slices-chunks (front ++ chunk) chunks in
    let here = append_assoc front chunk (flatten chunks) in
    let moved =
      ap (λ (n : ℕ). all_slices (front ++ (chunk ++ flatten chunks)) n chunks)
        (sym (length-append {0} front chunk))
      ∙ ap (λ (t : Bytes). all_slices t (length (front ++ chunk)) chunks) (sym here)
      ∙ later in
    ap
      (λ (t : Bytes).
        t ∷ all_slices (front ++ (chunk ++ flatten chunks)) (length front + length chunk) chunks)
      (slice-chunk front chunk (flatten chunks))
    ∙ ap (◌∷◌ chunk) moved

collect-ok :
    (e : Option ChunkError) (chunks : List Bytes) (ends : List ℕ)
    → collect e chunks ≡ ok ends
    → (e ≡ none) × (ends_from 0 chunks ≡ ends)
unfolding collect
collect-ok none chunks ends h = (refl, cc)
collect-ok (some e) chunks ends h = cc

-- For any chunker that keeps the laws of the trait: where `boundaries_of` succeeds, the ranges of its
-- ends cut the payload into exactly the chunks that the chunker emits.
pub ranges_slices :
    {S : Type 0} (new : S) (push : S → Bytes → Outcome S) (finish : S → Outcome S)
    (Fits : Bytes → Type 0) (pending : S → Bytes) (Inv Fresh : S → Type 0)
    → ChunkerLaws new push finish Fits pending Inv Fresh
    → (bytes : Bytes) (ends : List ℕ) → boundaries_of push finish new bytes ≡ ok ends
    → map (slice bytes) (ranges ends) ≡ (drive push finish new bytes).emitted
unfolding boundaries_of ranges flatten
ranges_slices new push finish Fits pending Inv Fresh laws bytes ends e =
    let o = drive push finish new bytes in
    let (fine, same) = collect-ok o.error o.emitted ends e in
    let whole = (drive-Chunked new push finish Fits pending Inv Fresh laws bytes).whole fine in
    ap (λ (t : List ℕ). map (slice bytes) (ranges_from 0 t)) (sym same)
    ∙ ap (λ (t : Bytes). all_slices t 0 o.emitted) (sym whole)
    ∙ slices-chunks [] o.emitted
