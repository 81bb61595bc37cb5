-- ===== src/Chunker.antt =====
-- The trait `Chunker` of src/chunker/profile_chunker.rs, and how its callers drive it.
pub mod Whole
pub mod Guarded
use async_chunker.Outcome.{Outcome, succeed, and_then}
use async_chunker.Outcome.Contract.{Keeps}
use async_chunker.Prelude.{ℕ, List, [], ◌∷◌, ◌++◌, ◌≡◌, Bytes}

-- What an implementation promises: `new` is the initial state, `Fresh` says that a state is as good as
-- new, `pending` gives the bytes that a state holds back, and `Fits` is what every chunk satisfies.
pub record ChunkerLaws {S : Type 0} (new : S) (push : S → Bytes → Outcome S)
    (finish : S → Outcome S) (Fits : Bytes → Type 0) (pending : S → Bytes) (Inv Fresh : S → Type 0)
    : Type 0 where
  pub initial : Inv new
  pub fresh : Fresh new
  pub empty : (s : S) → Fresh s → pending s ≡ []
  pub push_keeps : (s : S) (bs : Bytes) → Inv s → Keeps Fits pending Inv s bs (push s bs)
  pub finish_keeps : (s : S) → Inv s → Keeps Fits pending Fresh s [] (finish s)
  pub push_nothing : (s : S) → Inv s → push s [] ≡ succeed s
  pub push_windows :
      (s : S) (xs ys : Bytes) → Inv s → push s (xs ++ ys) ≡ and_then (push s xs) (λ t. push t ys)

module _ {S : Type 0} (push : S → Bytes → Outcome S) (finish : S → Outcome S) where
  -- One window, then the end of the stream: `push(..)?; finish(..)?` in `ChunkBoundaries::of`.
  unfoldable pub drive : S → Bytes → Outcome S
  drive s bytes = and_then (push s bytes) finish

  -- A stream that comes in several windows.
  unfoldable pub push_each : S → List Bytes → Outcome S
  push_each s [] = succeed s
  push_each s (w ∷ ws) = and_then (push s w) (λ t. push_each t ws)

  unfoldable pub drive_each : S → List Bytes → Outcome S
  unfolding push_each
  drive_each s ws = and_then (push_each s ws) finish
