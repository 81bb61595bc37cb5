-- ===== src/Outcome.antt =====
-- What a call leaves behind. A method of the source takes `&mut self` and a callback `emit`; here it
-- returns the new state, the chunks that it passed to `emit`, in order, and its result.
pub mod Feed
pub mod Contract
use async_chunker.Prelude.{ℕ, List, [], ◌∷◌, ◌++◌, Option, none, some, Bytes}
use async_chunker.Errors.{ChunkError}

-- A method that cannot fail.
pub record Emission {ℓ} (S : Type ℓ) : Type ℓ where
  pub state : S
  pub emitted : List Bytes

-- A method that returns `Result<(), ChunkError>`; `none` is `Ok(())`.
pub record Outcome {ℓ} (S : Type ℓ) : Type ℓ where
  pub state : S
  pub emitted : List Bytes
  pub error : Option ChunkError

module _ {ℓ} {S : Type ℓ} where
  abbrev pub quiet : S → Emission S
  quiet s = record { state = s; emitted = [] }

  -- One call after another.
  unfoldable pub seq : Emission S → (S → Emission S) → Emission S
  seq e k = let f = k e.state in record f { emitted = e.emitted ++ f.emitted }

  abbrev pub succeed : S → Outcome S
  succeed s = record { state = s; emitted = []; error = none }

  abbrev pub emits : S → List Bytes → Outcome S
  emits s chunks = record { state = s; emitted = chunks; error = none }

  abbrev pub fails : S → ChunkError → Outcome S
  fails s e = record { state = s; emitted = []; error = some e }

  -- Chunks emitted earlier stand in front.
  abbrev pub after : List Bytes → Outcome S → Outcome S
  after chunks o = record o { emitted = chunks ++ o.emitted }

  -- `?`: what follows runs on the new state if nothing failed.
  unfoldable pub and_then : Outcome S → (S → Outcome S) → Outcome S
  and_then o k = elim (o.error) [ none ↦ after o.emitted (k o.state) | some _ ↦ o ]

  -- `for &byte in window { step }`, where an error inside the body returns at once.
  unfoldable pub feed : (S → ℕ → Outcome S) → S → Bytes → Outcome S
  unfolding and_then
  feed step s [] = succeed s
  feed step s (b ∷ bs) = and_then (step s b) (λ s'. feed step s' bs)
