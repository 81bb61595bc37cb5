-- ===== src/Container/Stream.antt =====
-- Whole streams through a container chunker, whatever state its walker starts in.
use async_chunker.Assembler.Laws
use async_chunker.Assembler.Laws.{IsChunk}
use async_chunker.Assembler.{BoundaryAssembler}
use async_chunker.Chunker.{drive, drive_each}
use async_chunker.Chunker.Whole.{drive_each-drive}
use async_chunker.Constants.{chunk_max}
use async_chunker.Container.Laws.{Inv, Fresh, laws, pending}
use async_chunker.Container
use async_chunker.Container.{Format, ContainerChunker, C, new, push, finish}
use async_chunker.Outcome.Contract.{and_then-Keeps}
use async_chunker.Outcome.{Outcome}
use async_chunker.Prelude.{
  ◌+◌, ◌*◌, ◌≤◌, [], ◌++◌, ◌≡◌, refl, sym, ap, ◌∙◌, false, none, Bytes, All, List, flatten,
  append-nil, length, length-append, arith,
}

-- Chunks of the allowed sizes; all of the stream if it was accepted, and else a prefix of it.
pub record Conserves {S : Type 0} (bytes : Bytes) (o : Outcome S) : Type 0 where
  pub fits : All IsChunk o.emitted
  pub whole : o.error ≡ none → flatten o.emitted ≡ bytes
  pub unsent : Bytes
  pub is_prefix : flatten o.emitted ++ unsent ≡ bytes

module _ (f : Format) (a₀ : BoundaryAssembler) (fresh₀ : Laws.Fresh a₀ a₀)
    (renews : (a : BoundaryAssembler) → Laws.Fresh a₀ a → Laws.Fresh a₀ (f.restart a)) where
  abbrev pub started : f.Walker → C f
  started w = record { walker = w; assembler = a₀; rejected = false }

  started-Inv : (w : f.Walker) → Inv f a₀ (started w)
  unfolding Container.new
  started-Inv w = record {
    assembles = ((laws f a₀ fresh₀ renews).initial).assembles;
    accepting = refl;
  }

  nothing_pending : (w : f.Walker) → pending (started w) ≡ []
  nothing_pending w = rw (fresh₀.no_held, fresh₀.no_buffer) refl

  from_start : (w : f.Walker) (bytes : Bytes) → pending (started w) ++ (bytes ++ []) ≡ bytes
  from_start w bytes = ap (λ (t : Bytes). t ++ (bytes ++ [])) (nothing_pending w) ∙ append-nil bytes

  pub container_stream :
      (w : f.Walker) (bytes : Bytes) → Conserves bytes (drive (push f) (finish f) (started w) bytes)
  unfolding drive
  container_stream w bytes =
      let l = laws f a₀ fresh₀ renews in
      let c = started w in
      let p = push f c bytes in
      let o = drive (push f) (finish f) c bytes in
      let k =
        and_then-Keeps IsChunk pending (Inv f a₀) (Fresh f a₀) c bytes [] p (finish f)
          (l.push_keeps c bytes (started-Inv w)) (λ i. l.finish_keeps p.state i) in
      record {
        fits = k.fits;
        whole = λ e.
            sym (append-nil (flatten o.emitted))
            ∙ ap (◌++◌ (flatten o.emitted)) (sym (l.empty o.state (k.keeps e)))
            ∙ k.conserves e
            ∙ from_start w bytes;
        unsent = k.unsent;
        is_prefix = k.is_prefix ∙ from_start w bytes;
      }

  -- A container chunker never holds back more than two chunks of the maximum length: whatever its format and
  -- the state its walker starts in, all but the last 512 KiB of the bytes that a new one has taken are in
  -- the chunks that it has emitted.
  pub container_progress :
      (w : f.Walker) (bytes : Bytes)
      → (push f (started w) bytes).error ≡ none
      → length bytes ≤ length (flatten (push f (started w) bytes).emitted) + 2 * chunk_max
  container_progress w bytes e =
      let l = laws f a₀ fresh₀ renews in
      let o = push f (started w) bytes in
      let k = l.push_keeps (started w) bytes (started-Inv w) in
      let a = (k.keeps e).assembles in
      let all : flatten o.emitted ++ pending o.state ≡ bytes =
        k.conserves e ∙ ap (λ (t : Bytes). t ++ bytes) (nothing_pending w) in
      let held = a.held_fits in
      let room = a.room in
      omega (
        arith,
        ap (length {0}) all,
        length-append {0} (flatten o.emitted) (pending o.state),
        length-append {0} (((o.state).assembler).held) (((o.state).assembler).buffer),
      )

  -- How a stream is cut into windows does not change what a container chunker emits, its result, or the
  -- state left, whatever the format's walker is.
  pub container_windows :
      (windows : List Bytes)
      → drive_each (push f) (finish f) (new f a₀) windows
        ≡ drive (push f) (finish f) (new f a₀) (flatten windows)
  container_windows =
      drive_each-drive (new f a₀) (push f) (finish f) IsChunk pending (Inv f a₀) (Fresh f a₀)
        (laws f a₀ fresh₀ renews)
