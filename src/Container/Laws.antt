-- ===== src/Container/Laws.antt =====
-- What a container chunker guarantees, whatever its walker does.
use async_chunker.Assembler
use async_chunker.Assembler.{BoundaryAssembler, boundary, take_unit_byte}
use async_chunker.Assembler.Laws.{IsChunk, begins-Good, take_unit_byte-Good, finish-Good}
use async_chunker.Assembler.Laws
use async_chunker.Chunker.{ChunkerLaws}
use async_chunker.Container.{
  Format, ContainerChunker, C, new, rejects, settle, push_byte, push, end_with, finish,
}
use async_chunker.Outcome.{Outcome, quiet, feed, and_then}
use async_chunker.Outcome.Contract.{Keeps, feed-Keeps, and_then-cong}
use async_chunker.Outcome.Feed.{feed-append}
use async_chunker.Prelude.{
  ℕ, [], ◌∷◌, ◌++◌, ◌≡◌, refl, sym, ap, ◌∙◌, Bool, false, Option, Bytes, append-nil, append_assoc,
  flatten, length, arith, if◌then◌else◌,
}
use async_chunker.Result.{Result, ok, err}

module _ (f : Format) where
  -- An accepting chunker passes its guard.
  pub push-accepting :
      (c : C f) (bs : Bytes) → c.rejected ≡ false → push f c bs ≡ feed (push_byte f) c bs
  unfolding push
  push-accepting c bs e = rw e

  pub finish-accepting :
      (c : C f) → c.rejected ≡ false → finish f c ≡ end_with f c (f.check_end c.walker)
  unfolding finish
  finish-accepting c e = rw e

abbrev pub pending : {W : Type 0} → ContainerChunker W → Bytes
pending c = Laws.pending c.assembler

-- The section's `a₀` is the assembler of a new chunker.
module _ (f : Format) (a₀ : BoundaryAssembler) where
  pub record Inv (c : C f) : Type 0 where
    pub assembles : Laws.Inv a₀ c.assembler
    pub accepting : c.rejected ≡ false

  pub record Fresh (c : C f) : Type 0 where
    pub assembler_fresh : Laws.Fresh a₀ c.assembler
    pub walker_fresh : c.walker ≡ f.start
    pub not_rejected : c.rejected ≡ false

module _ (f : Format) (a₀ : BoundaryAssembler) where
  -- A fresh assembler has nothing pending.
  nothing-pending : (a : BoundaryAssembler) → Laws.Fresh a₀ a → Laws.pending a ≡ []
  nothing-pending a r = rw (r.no_held, r.no_buffer) refl

  -- A rejection emits nothing itself, and what was emitted before it stands.
  rejects-Keeps :
      (c d : C f) (begins : Bool) (fault : f.Fault) (b : ℕ)
      → Inv f a₀ c
      → Keeps IsChunk pending
          (Inv f a₀)
          c
          (b ∷ [])
          (rejects f d (if begins then boundary c.assembler else quiet c.assembler).emitted fault)
  unfolding rejects
  rejects-Keeps c d begins fault b i =
      let e = if begins then boundary c.assembler else quiet c.assembler in
      let g = begins-Good begins c.assembler i.assembles in
      record {
        fits = g.fits;
        keeps = λ x. cc;
        conserves = λ x. cc;
        unsent = Laws.pending e.state ++ b ∷ [];
        is_prefix =
            sym (append_assoc (flatten e.emitted) (Laws.pending e.state) (b ∷ []))
            ∙ ap (λ (t : Bytes). t ++ b ∷ []) (g.conserves ∙ append-nil (Laws.pending c.assembler));
      }

  settle-Keeps :
      (c : C f) (begins : Bool) (b : ℕ) (r : f.Walker × Result f.Fault (Option ℕ))
      → Inv f a₀ c
      → Keeps IsChunk pending (Inv f a₀) c (b ∷ []) (settle f c begins b r)
  unfolding settle
  settle-Keeps c begins b (walker, ok large) i =
      let g = take_unit_byte-Good begins large c.assembler b i.assembles in
      record {
        fits = g.fits;
        keeps = λ _. record { assembles = g.keeps; accepting = i.accepting };
        conserves = λ _. g.conserves;
        unsent = Laws.pending (take_unit_byte begins large c.assembler b).state;
        is_prefix = g.conserves;
      }
  settle-Keeps c begins b (walker, err fault) i =
      let e = if begins then boundary c.assembler else quiet c.assembler in
      rejects-Keeps c (record c { walker = walker; assembler = e.state }) begins fault b i

  feed_bytes-Keeps :
      (c : C f) (bs : Bytes)
      → Inv f a₀ c
      → Keeps IsChunk pending (Inv f a₀) c bs (feed (push_byte f) c bs)
  feed_bytes-Keeps = feed-Keeps IsChunk pending (Inv f a₀) (push_byte f) (λ c b i.
      unfold push_byte in settle-Keeps c (f.begins_unit c.walker b) b (f.consume c.walker b) i)

  end_with-Keeps :
      ((a : BoundaryAssembler) → Laws.Fresh a₀ a → Laws.Fresh a₀ (f.restart a))
      → (c : C f) (r : Result f.Fault (Unit {0})) → Inv f a₀ c
      → Keeps IsChunk pending (Fresh f a₀) c [] (end_with f c r)
  unfolding end_with rejects flatten
  end_with-Keeps renews c (ok _) i =
      let g = finish-Good c.assembler i.assembles in
      let left = (Assembler.finish c.assembler).state in
      record {
        fits = g.fits;
        keeps = λ _. record {
          assembler_fresh = renews left g.keeps;
          walker_fresh = refl;
          not_rejected = i.accepting;
        };
        conserves = λ _.
            ap (λ (t : Bytes). flatten (Assembler.finish c.assembler).emitted ++ t)
              (nothing-pending (f.restart left) (renews left g.keeps)
                ∙ sym (nothing-pending left g.keeps))
            ∙ g.conserves;
        unsent = Laws.pending left;
        is_prefix = g.conserves;
      }
  end_with-Keeps renews c (err fault) i = record {
    fits = tt;
    keeps = λ x. cc;
    conserves = λ x. cc;
    unsent = pending c;
    is_prefix = sym (append-nil (pending c));
  }

module _ (f : Format) (a₀ : BoundaryAssembler) (fresh₀ : Laws.Fresh a₀ a₀)
    (renews : (a : BoundaryAssembler) → Laws.Fresh a₀ a → Laws.Fresh a₀ (f.restart a)) where
  initial-Inv : Inv f a₀ (new f a₀)
  unfolding new
  initial-Inv = record {
    assembles = record {
      held_fits = omega (arith, ap (length {0}) fresh₀.no_held);
      room = omega (arith, ap (length {0}) fresh₀.no_buffer);
      parameters = fresh₀.as_new;
    };
    accepting = refl;
  }

  new-Fresh : Fresh f a₀ (new f a₀)
  unfolding new
  new-Fresh = record { assembler_fresh = fresh₀; walker_fresh = refl; not_rejected = refl }

  push-append :
      (c : C f) (xs ys : Bytes)
      → Inv f a₀ c
      → push f c (xs ++ ys) ≡ and_then (push f c xs) (λ t. push f t ys)
  push-append c xs ys i =
      let o = feed (push_byte f) c xs in
      push-accepting f c (xs ++ ys) i.accepting
      ∙ feed-append (push_byte f) c xs ys
      ∙ and_then-cong o (λ t. feed (push_byte f) t ys) (λ t. push f t ys)
          (λ e.
            sym (push-accepting f o.state ys ((feed_bytes-Keeps f a₀ c xs i).keeps e).accepting))
      ∙ ap (λ (p : Outcome (C f)). and_then p (λ t. push f t ys))
          (sym (push-accepting f c xs i.accepting))

  pub laws : ChunkerLaws (new f a₀) (push f) (finish f) IsChunk pending (Inv f a₀) (Fresh f a₀)
  unfolding feed
  laws = record {
    initial = initial-Inv;
    fresh = new-Fresh;
    empty = λ c r. let a = r.assembler_fresh in rw (a.no_held, a.no_buffer) refl;
    push_keeps = λ c bs i. rw (push-accepting f c bs i.accepting) (feed_bytes-Keeps f a₀ c bs i);
    finish_keeps = λ c i.
        rw (finish-accepting f c i.accepting)
          (end_with-Keeps f a₀ renews c (f.check_end c.walker) i);
    push_nothing = λ c i. push-accepting f c [] i.accepting;
    push_windows = push-append;
  }
