-- ===== src/Chunker/Guarded.antt =====
-- Chunkers that refuse every call once a stream was rejected: `guard` in front of a loop over the bytes and
-- of the end of the stream, as the chunkers of src/chunker/mpegts, structured_text and framed_audio have it.
use mathlib.Core.Path.{subst}
use async_chunker.Chunker.{ChunkerLaws, drive}
use async_chunker.Errors.{ChunkError}
use async_chunker.Outcome.Contract.{Keeps, feed-Keeps, and_then-cong}
use async_chunker.Outcome.Feed.{feed-append, feed_failed, and_then_failed}
use async_chunker.Outcome.{Outcome, fails, feed, and_then}
use async_chunker.Prelude.{
  ℕ, [], ◌∷◌, ◌++◌, ◌≡◌, sym, ap, ◌∙◌, Bool, true, false, some, Bytes, if◌then◌else◌,
}

module _ {S : Type 0} (rejected : S → Bool) (refusal : ChunkError) where
  abbrev pub guarded : S → Outcome S → Outcome S
  guarded s o = if rejected s then fails s refusal else o

  unfoldable pub push : (S → ℕ → Outcome S) → S → Bytes → Outcome S
  unfolding feed
  push step s bs = guarded s (feed step s bs)

  unfoldable pub finish : (S → Outcome S) → S → Outcome S
  finish end s = guarded s (end s)

module _ {S : Type 0} (rejected : S → Bool) (refusal : ChunkError) (step : S → ℕ → Outcome S)
    (end : S → Outcome S) where
  push-accepting :
      (s : S) (bs : Bytes) → rejected s ≡ false → push rejected refusal step s bs ≡ feed step s bs
  unfolding push
  push-accepting s bs e = rw e

  finish-accepting : (s : S) → rejected s ≡ false → finish rejected refusal end s ≡ end s
  unfolding finish
  finish-accepting s e = rw e

  -- Every later call is refused, with nothing emitted and nothing changed.
  pub record Refuses (s : S) : Type 0 where
    pub refuses_push : (bs : Bytes) → push rejected refusal step s bs ≡ fails s refusal
    pub refuses_finish : finish rejected refusal end s ≡ fails s refusal

  rejected-Refuses : (s : S) → rejected s ≡ true → Refuses s
  unfolding push finish
  rejected-Refuses s e = record { refuses_push = λ bs. rw e; refuses_finish = rw e }

module _ {S : Type 0} (rejected : S → Bool) (refusal : ChunkError) (step : S → ℕ → Outcome S)
    (end : S → Outcome S) (new : S) (Fits : Bytes → Type 0) (pending : S → Bytes)
    (Inv Fresh : S → Type 0) (accepts : (s : S) → Inv s → rejected s ≡ false)
    (steps : (s : S) (b : ℕ) → Inv s → Keeps Fits pending Inv s (b ∷ []) (step s b)) where
  pub push-Keeps :
      (s : S) (bs : Bytes) → Inv s → Keeps Fits pending Inv s bs (push rejected refusal step s bs)
  push-Keeps s bs i =
      subst (Keeps Fits pending Inv s bs)
        (sym (push-accepting rejected refusal step end s bs (accepts s i)))
        (feed-Keeps Fits pending Inv step steps s bs i)

  push-append :
      (s : S) (xs ys : Bytes)
      → Inv s
      → push rejected refusal step s (xs ++ ys)
        ≡ and_then (push rejected refusal step s xs) (λ t. push rejected refusal step t ys)
  push-append s xs ys i =
      let o = feed step s xs in
      let same = λ (t : S) (zs : Bytes) (j : Inv t).
        push-accepting rejected refusal step end t zs (accepts t j) in
      same s (xs ++ ys) i
      ∙ feed-append step s xs ys
      ∙ and_then-cong o (λ t. feed step t ys) (λ t. push rejected refusal step t ys)
          (λ e. sym (same o.state ys ((feed-Keeps Fits pending Inv step steps s xs i).keeps e)))
      ∙ ap (λ (p : Outcome S). and_then p (λ t. push rejected refusal step t ys))
          (sym (same s xs i))

  -- The laws of the trait, from those of one byte and of the end.
  pub guarded_laws :
      Inv new
      → Fresh new
      → ((s : S) → Fresh s → pending s ≡ [])
      → ((s : S) → Inv s → Keeps Fits pending Fresh s [] (end s))
      → ChunkerLaws new
          (push rejected refusal step)
          (finish rejected refusal end)
          Fits
          pending
          Inv
          Fresh
  unfolding feed
  guarded_laws initial fresh empty ends = record {
    initial = initial;
    fresh = fresh;
    empty = empty;
    push_keeps = push-Keeps;
    finish_keeps = λ s i.
        subst (Keeps Fits pending Fresh s [])
          (sym (finish-accepting rejected refusal step end s (accepts s i))) (ends s i);
    push_nothing = λ s i. push-accepting rejected refusal step end s [] (accepts s i);
    push_windows = push-append;
  }

  -- A stream that failed leaves a chunker that refuses every later call.
  pub drive-Refuses :
      Inv new
      → ((s : S) (b : ℕ) (e : ChunkError)
          → (step s b).error ≡ some e
          → rejected (step s b).state ≡ true)
      → ((s : S) (e : ChunkError) → (end s).error ≡ some e → rejected (end s).state ≡ true)
      → (bs : Bytes) (e : ChunkError)
      → (drive (push rejected refusal step) (finish rejected refusal end) new bs).error ≡ some e
      → Refuses rejected refusal step end
          (drive (push rejected refusal step) (finish rejected refusal end) new bs).state
  unfolding drive
  drive-Refuses initial step_rejects end_rejects bs e h =
      let o = push rejected refusal step new bs in
      let refused = rejected-Refuses rejected refusal step end in
      let pushed = push-accepting rejected refusal step end new bs (accepts new initial) in
      let error = λ (p : Outcome S). p.error in
      and_then_failed (Refuses rejected refusal step end) o (finish rejected refusal end) e
        (λ f.
          subst (λ (p : Outcome S). Refuses rejected refusal step end p.state) (sym pushed)
            (refused (feed step new bs).state (
              feed_failed (λ s. rejected s ≡ true) step step_rejects new bs e
                (ap error (sym pushed) ∙ f))))
        (λ going f.
          let s = o.state in
          let ended =
            finish-accepting rejected refusal step end s
              (accepts s ((push-Keeps new bs initial).keeps going)) in
          subst (λ (p : Outcome S). Refuses rejected refusal step end p.state) (sym ended)
            (refused (end s).state (end_rejects s e (ap error (sym ended) ∙ f))))
        h
