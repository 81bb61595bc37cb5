-- ===== src/Container/Accepting.antt =====
-- The chunker against its walker: what the walker makes of a stream alone, and that the chunker agrees.
use async_chunker.Assembler
use async_chunker.Errors.{ChunkError}
use async_chunker.Assembler.{BoundaryAssembler}
use async_chunker.Chunker.{drive}
use async_chunker.Container.Laws.{push-accepting, finish-accepting}
use async_chunker.Container.{Format, C, settle, rejects, push_byte, push, end_with, finish}
use async_chunker.Outcome.Feed.{and_then-ok, and_then-err}
use async_chunker.Outcome.{Outcome, and_then, after, feed}
use async_chunker.Prelude.{
  ℕ, List, [], ◌∷◌, ◌≡◌, ◌≢◌, ◌↔◌, ◌⊎◌, refl, sym, ap, ◌∙◌, Bool, false, Option, none, some, Bytes,
  inl, inr, Option-cases, ◌++◌, append-nil, append_assoc,
}
use async_chunker.Result.{Result, ok, err, Result-cases}
use mathlib.Core.Path.{subst}

module _ (f : Format) where
  -- The walker behind a stream, if it rejected no byte.
  unfoldable pub walk : f.Walker → Bytes → Option f.Walker
  walk w [] = some w
  walk w (b ∷ bs) = elim ((f.consume w b).1) [
    | ok large ↦ walk (f.consume w b).0 bs
    | err fault ↦ none
  ]

  -- What each byte that is taken carries on, a walk does.
  pub walk_inv :
      (P : Bytes → f.Walker → Type 0)
      → ((w : f.Walker) (b : ℕ) (seen : Bytes) (large : Option ℕ)
          → P seen w
          → (f.consume w b).1 ≡ ok large
          → P (seen ++ b ∷ []) (f.consume w b).0)
      → (bs seen : Bytes) (w v : f.Walker) → P seen w
      → walk w bs ≡ some v
      → P (seen ++ bs) v
  unfolding walk
  walk_inv P each [] seen w v p e =
      let same : w ≡ v = cc in
      subst (P (seen ++ [])) same (subst (λ (t : Bytes). P t w) (sym (append-nil seen)) p)
  walk_inv P each (b ∷ bs) seen w v p e = elim (Result-cases ((f.consume w b).1)) [
    | inl (large, taken) ↦
        subst (λ (t : Bytes). P t v) (append_assoc seen (b ∷ []) bs)
          (walk_inv P each bs (seen ++ b ∷ []) (f.consume w b).0 v (each w b seen large p taken)
            (rw (taken, walk) at e))
    | inr (fault, refused) ↦ let no : none ≡ some v = (rw (refused, walk) at e) in cc
  ]

  -- A walker takes every byte, and then the end.
  unfoldable pub Accepts : f.Walker → Bytes → Type 0
  Accepts start bs = (w : f.Walker) × (walk start bs ≡ some w) × (f.check_end w ≡ ok tt)

  -- An outcome that a walk leads to.
  Agrees : Option f.Walker → Outcome (C f) → Type 0
  Agrees (some w) o = (o.error ≡ none) × (o.state.walker ≡ w) × (o.state.rejected ≡ false)
  Agrees none o = o.error ≢ none

  after-Agrees :
      (w : Option f.Walker) (chunks : List Bytes) (o : Outcome (C f))
      → Agrees w o
      → Agrees w (after chunks o)
  unfolding Agrees
  after-Agrees (some w) chunks o h = h
  after-Agrees none chunks o h = h

  settle-Agrees :
      (c : C f) (begins : Bool) (b : ℕ) (bs : Bytes) (r : f.Walker × Result f.Fault (Option ℕ))
      → c.rejected ≡ false
      → ((d : C f) → d.rejected ≡ false → Agrees (walk d.walker bs) (feed (push_byte f) d bs))
      → Agrees
          (elim (r.1) [ ok large ↦ walk r.0 bs | err fault ↦ none ])
          (and_then (settle f c begins b r) (λ t. feed (push_byte f) t bs))
  unfolding settle rejects and_then
  settle-Agrees c begins b bs (w, ok large) a ih =
      let o = settle f c begins b (w, ok large) in
      after-Agrees (walk w bs) o.emitted (feed (push_byte f) o.state bs) (ih o.state a)
  settle-Agrees c begins b bs (w, err fault) a ih = unfold Agrees in λ e. cc

  feed-Agrees :
      (c : C f) (bs : Bytes)
      → c.rejected ≡ false
      → Agrees (walk c.walker bs) (feed (push_byte f) c bs)
  unfolding feed walk push_byte
  feed-Agrees c [] a = unfold Agrees in (refl, refl, a)
  feed-Agrees c (b ∷ bs) a =
      settle-Agrees c (f.begins_unit c.walker b) b bs (f.consume c.walker b) a
        (λ d e. feed-Agrees d bs e)

  end_with-accepts :
      (c : C f) (r : Result f.Fault (Unit {0})) → ((end_with f c r).error ≡ none) ↔ (r ≡ ok tt)
  unfolding end_with rejects
  end_with-accepts c (ok tt) = (λ _. refl, λ _. refl)
  end_with-accepts c (err fault) = (λ e. cc, λ e. cc)

  finish-accepts :
      (c : C f) → c.rejected ≡ false → ((finish f c).error ≡ none) ↔ (f.check_end c.walker ≡ ok tt)
  finish-accepts c a = rw (finish-accepting f c a) (end_with-accepts c (f.check_end c.walker))

  ended-Accepts :
      (o : Outcome (C f)) (w : Option f.Walker)
      → Agrees w o
      → ((and_then o (finish f)).error ≡ none)
        ↔ ((v : f.Walker) × (w ≡ some v) × (f.check_end v ≡ ok tt))
  unfolding Agrees
  ended-Accepts o (some w) (e, same, a) =
      let both = and_then-ok o (finish f) e in
      (
        λ h. (
          w,
          refl,
          ap (f.check_end) (sym same)
              ∙ (finish-accepts o.state a).0 (ap (λ (p : Outcome (C f)). p.error) (sym both) ∙ h),
        ),
        λ (v, named, done).
            let there : f.check_end w ≡ ok tt = cc in
            ap (λ (p : Outcome (C f)). p.error) both
            ∙ (finish-accepts o.state a).1 (ap (f.check_end) same ∙ there),
      )
  ended-Accepts o none h = (
    λ e. elim (Option-cases (o.error)) [
      | inl fine ↦ absurd (h fine)
      | inr (x, failed) ↦
          absurd
            (h (ap (λ (p : Outcome (C f)). p.error) (sym (and_then-err o (finish f) x failed)) ∙ e))
    ],
    λ k. cc,
  )

  -- A container chunker that has rejected nothing takes a stream exactly when its walker takes each of the
  -- bytes, and then the end: the assembler that places the cuts, and where it places them, has no part
  -- in that.
  pub drive-Accepts :
      (c : C f) (bs : Bytes)
      → c.rejected ≡ false
      → ((drive (push f) (finish f) c bs).error ≡ none) ↔ Accepts c.walker bs
  unfolding drive Accepts
  drive-Accepts c bs a =
      rw (push-accepting f c bs a)
        (ended-Accepts (feed (push_byte f) c bs) (walk c.walker bs) (feed-Agrees c bs a))

  unfoldable pub remade : BoundaryAssembler → Bool → C f
  remade a rejected = record { walker = f.start; assembler = f.restart a; rejected = rejected }

  end_with-state :
      (c : C f) (r : Result f.Fault (Unit {0}))
      → (end_with f c r).error ≡ none
      → (a : BoundaryAssembler) × ((end_with f c r).state ≡ remade a c.rejected)
  unfolding end_with rejects remade
  end_with-state c (ok tt) e = ((Assembler.finish c.assembler).state, refl)
  end_with-state c (err fault) e = absurd cc

  -- A chunker as after `finish`, with what it made of the assembler.
  unfoldable pub Restarted : C f → Type 0
  Restarted d = (a : BoundaryAssembler) × (d ≡ remade a false)

  ended-Restarted :
      (o : Outcome (C f)) (w : Option f.Walker)
      → Agrees w o
      → (and_then o (finish f)).error ≡ none
      → Restarted (and_then o (finish f)).state
  unfolding Agrees Restarted
  ended-Restarted o none h e = absurd (h (never-fails (Option-cases (o.error))))
    where
      never-fails : (o.error ≡ none) ⊎ ((x : ChunkError) × (o.error ≡ some x)) → o.error ≡ none
      never-fails (inl fine) = fine
      never-fails (inr (x, failed)) =
          ap (λ (p : Outcome (C f)). p.error) (sym (and_then-err o (finish f) x failed)) ∙ e
  ended-Restarted o (some w) (fine, same, a) e =
      let both =
        and_then-ok o (finish f) fine ∙ ap (after o.emitted) (finish-accepting f o.state a) in
      let (b, left) =
        end_with-state o.state (f.check_end (o.state).walker)
          (ap (λ (p : Outcome (C f)). p.error) (sym both) ∙ e) in
      (b, ap (λ (p : Outcome (C f)). p.state) both ∙ left ∙ ap (λ (r : Bool). remade b r) a)

  -- What an accepted stream leaves, whatever the chunker began as.
  pub drive-Restarted :
      (c : C f) (bs : Bytes)
      → c.rejected ≡ false
      → (drive (push f) (finish f) c bs).error ≡ none
      → Restarted (drive (push f) (finish f) c bs).state
  unfolding drive
  drive-Restarted c bs a =
      rw (push-accepting f c bs a)
        (ended-Restarted (feed (push_byte f) c bs) (walk c.walker bs) (feed-Agrees c bs a))
