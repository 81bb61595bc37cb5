-- ===== src/Container/Rejection.antt =====
-- A rejected stream stays rejected.
use mathlib.Core.Path.{subst}
use async_chunker.Assembler
use async_chunker.Assembler.{BoundaryAssembler, boundary}
use async_chunker.Assembler.Laws
use async_chunker.Chunker.{drive}
use async_chunker.Container.Laws.{push-accepting, finish-accepting, laws}
use async_chunker.Container.{Format, C, new, rejects, settle, push_byte, push, end_with, finish}
use async_chunker.Errors.{ChunkError, profile_stream_rejected}
use async_chunker.Outcome.Feed.{feed_failed, and_then_failed}
use async_chunker.Outcome.{Outcome, quiet, fails}
use async_chunker.Prelude.{
  ℕ, List, [], ◌≡◌, refl, sym, ap, ◌∙◌, Bool, false, some, Option, Bytes, if◌then◌else◌,
}
use async_chunker.Result.{Result, ok, err}

module _ (f : Format) where
  -- Nothing is held back, and every later call is refused with nothing emitted and nothing changed.
  pub record IsRejected (c : C f) : Type 0 where
    pub no_buffer : c.assembler.buffer ≡ []
    pub no_held : c.assembler.held ≡ []
    pub refuses_push : (bs : Bytes) → push f c bs ≡ fails c (profile_stream_rejected f.profile)
    pub refuses_finish : finish f c ≡ fails c (profile_stream_rejected f.profile)

  rejects-IsRejected :
      (c : C f) (emitted : List Bytes) (fault : f.Fault)
      → IsRejected (rejects f c emitted fault).state
  unfolding rejects Assembler.clear push finish
  rejects-IsRejected c emitted fault = record {
    no_buffer = refl;
    no_held = refl;
    refuses_push = λ bs. refl;
    refuses_finish = refl;
  }

  settle-IsRejected :
      (c : C f) (begins : Bool) (b : ℕ) (r : f.Walker × Result f.Fault (Option ℕ)) (e : ChunkError)
      → (settle f c begins b r).error ≡ some e
      → IsRejected (settle f c begins b r).state
  unfolding settle
  settle-IsRejected c begins b (walker, ok large) e h = cc
  settle-IsRejected c begins b (walker, err fault) e h =
      let a = if begins then boundary c.assembler else quiet c.assembler in
      rejects-IsRejected (record c { walker = walker; assembler = a.state }) a.emitted fault

  push_byte-IsRejected :
      (c : C f) (b : ℕ) (e : ChunkError)
      → (push_byte f c b).error ≡ some e
      → IsRejected (push_byte f c b).state
  unfolding push_byte
  push_byte-IsRejected c b e h =
      settle-IsRejected c (f.begins_unit c.walker b) b (f.consume c.walker b) e h

  push-IsRejected :
      (c : C f) (bs : Bytes) (e : ChunkError)
      → c.rejected ≡ false
      → (push f c bs).error ≡ some e
      → IsRejected (push f c bs).state
  push-IsRejected c bs e accepting h =
      let same = push-accepting f c bs accepting in
      subst (λ (o : Outcome (C f)). IsRejected o.state) (sym same)
        (feed_failed IsRejected (push_byte f) push_byte-IsRejected c bs e
          (ap (λ (o : Outcome (C f)). o.error) (sym same) ∙ h))

  end_with-IsRejected :
      (c : C f) (r : Result f.Fault (Unit {0})) (e : ChunkError)
      → (end_with f c r).error ≡ some e
      → IsRejected (end_with f c r).state
  unfolding end_with
  end_with-IsRejected c (ok _) e h = cc
  end_with-IsRejected c (err fault) e h = rejects-IsRejected c [] fault

  finish-IsRejected :
      (c : C f) (e : ChunkError)
      → c.rejected ≡ false
      → (finish f c).error ≡ some e
      → IsRejected (finish f c).state
  finish-IsRejected c e accepting h =
      let same = finish-accepting f c accepting in
      subst (λ (o : Outcome (C f)). IsRejected o.state) (sym same)
        (end_with-IsRejected c (f.check_end c.walker) e
          (ap (λ (o : Outcome (C f)). o.error) (sym same) ∙ h))

module _ (f : Format) (a₀ : BoundaryAssembler) (fresh₀ : Laws.Fresh a₀ a₀)
    (renews : (a : BoundaryAssembler) → Laws.Fresh a₀ a → Laws.Fresh a₀ (f.restart a)) where
  -- Where a container chunker fails, in a stream's bytes or at its end, it is left with nothing held back, and
  -- refuses every later `push` and `finish` with the same error, emitting nothing and changing nothing.
  pub drive-IsRejected :
      (bs : Bytes) (e : ChunkError)
      → (drive (push f) (finish f) (new f a₀) bs).error ≡ some e
      → IsRejected f (drive (push f) (finish f) (new f a₀) bs).state
  unfolding drive
  drive-IsRejected bs e h =
      let l = laws f a₀ fresh₀ renews in
      let o = push f (new f a₀) bs in
      let k = l.push_keeps (new f a₀) bs l.initial in
      and_then_failed (IsRejected f) o (finish f) e
        (push-IsRejected f (new f a₀) bs e (l.initial).accepting)
        (λ going. finish-IsRejected f o.state e (k.keeps going).accepting) h
