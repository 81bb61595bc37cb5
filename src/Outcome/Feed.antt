-- ===== src/Outcome/Feed.antt =====
-- Laws of the loop over a window.
use mathlib.Core.Path.{fun_ext, subst}
use async_chunker.Prelude.{
  ℕ, [], ◌∷◌, ◌++◌, ◌≡◌, refl, sym, ap, ◌∙◌, inl, inr, none, some, arith, Bytes, append_assoc,
  Option-cases,
}
use async_chunker.Outcome.{Outcome, and_then, after, feed}
use async_chunker.Errors.{ChunkError}

pub and_then-ok {ℓ} :
    {S : Type ℓ} (o : Outcome S) (k : S → Outcome S)
    → o.error ≡ none
    → and_then o k ≡ after o.emitted (k o.state)
unfolding and_then
and_then-ok o k e = ground arith

pub and_then-err {ℓ} :
    {S : Type ℓ} (o : Outcome S) (k : S → Outcome S) (f : ChunkError)
    → o.error ≡ some f
    → and_then o k ≡ o
unfolding and_then
and_then-err o k f e = ground arith

module _ {ℓ} {S : Type ℓ} where
  and_then_assoc :
      (o : Outcome S) (f g : S → Outcome S)
      → and_then (and_then o f) g ≡ and_then o (λ s. and_then (f s) g)
  unfolding and_then
  and_then_assoc o f g =
      ground (arith, append_assoc o.emitted (f o.state).emitted (g (f o.state).state).emitted)

  pub feed-append :
      (step : S → ℕ → Outcome S) (s : S) (xs ys : Bytes)
      → feed step s (xs ++ ys) ≡ and_then (feed step s xs) (λ t. feed step t ys)
  unfolding feed
  feed-append step s [] ys = refl
  feed-append step s (x ∷ xs) ys =
      ap (and_then (step s x)) (fun_ext (λ t. feed-append step t xs ys))
      ∙ sym (and_then_assoc (step s x) (λ t. feed step t xs) (λ t. feed step t ys))

  -- What holds of the state after every failing round holds after a failing loop.
  pub feed_failed :
      (R : S → Type 0) (step : S → ℕ → Outcome S)
      → ((s : S) (b : ℕ) (e : ChunkError) → (step s b).error ≡ some e → R (step s b).state)
      → (s : S) (bs : Bytes) (e : ChunkError) → (feed step s bs).error ≡ some e
      → R (feed step s bs).state
  unfolding feed
  feed_failed R step each s [] e h = cc
  feed_failed R step each s (b ∷ bs) e h = elim (Option-cases ((step s b).error)) [
    | inl going ↦
        subst (λ (o : Outcome S). R o.state)
          (sym (and_then-ok (step s b) (λ t. feed step t bs) going))
          (feed_failed R step each (step s b).state bs e (
            sym
              (ap (λ (o : Outcome S). o.error) (and_then-ok (step s b) (λ t. feed step t bs) going))
            ∙ h))
    | inr (x, stopped) ↦
        subst (λ (o : Outcome S). R o.state)
          (sym (and_then-err (step s b) (λ t. feed step t bs) x stopped)) (each s b x stopped)
  ]

  -- What each part leaves behind when it fails, a chain of both does.
  pub and_then_failed :
      (R : S → Type 0) (o : Outcome S) (k : S → Outcome S) (e : ChunkError)
      → (o.error ≡ some e → R o.state)
      → (o.error ≡ none → (k o.state).error ≡ some e → R (k o.state).state)
      → (and_then o k).error ≡ some e
      → R (and_then o k).state
  and_then_failed R o k e first second h = elim (Option-cases (o.error)) [
    | inl going ↦
        subst (λ (p : Outcome S). R p.state) (sym (and_then-ok o k going))
          (second going (ap (λ (p : Outcome S). p.error) (sym (and_then-ok o k going)) ∙ h))
    | inr (x, stopped) ↦
        let same = and_then-err o k x stopped in
        subst (λ (p : Outcome S). R p.state) (sym same)
          (first (ap (λ (p : Outcome S). p.error) (sym same) ∙ h))
  ]
