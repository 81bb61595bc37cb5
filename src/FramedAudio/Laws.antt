-- ===== src/FramedAudio/Laws.antt =====
-- What the framed-audio chunker guarantees of its chunks, byte by byte.
use mathlib.Core.Path.{subst}
use async_chunker.Chunker.Guarded.{guarded_laws}
use async_chunker.Chunker.{ChunkerLaws}
use async_chunker.Constants.{chunk_min, chunk_max}
use async_chunker.FramedAudio.Headers.{AudioFault}
use async_chunker.FramedAudio.Room.{Room, Ready, Moved, consume-Moved}
use async_chunker.FramedAudio.Walker.{
  Walker, W, State, is_seam, is_opaque, at_seam, in_opaque, consume,
}
use async_chunker.FramedAudio.Walker as Frames
use async_chunker.FramedAudio.{
  FramedAudioChunker, new, rejects, cut_at_seam, cut_in_opaque, emptied, emit_buffer, before, taken,
  behind, consumed, push_byte, end_with, end_stream, forced_seam_limit, refusal, push, finish,
}
use async_chunker.Gear.{Blake3, reset, update}
use async_chunker.Outcome.Contract.{Keeps, and_then-Keeps}
use async_chunker.Outcome.{succeed}
use async_chunker.Prelude.{
  ℕ, ◌+◌, ◌-◌, ◌≤◌, ◌<◌, ◌≡◌, refl, sym, ap, ◌∙◌, [], ◌∷◌, ◌++◌, true, false, not, ◌&&◌, arith,
  Option, Bytes, length, length-append, is_empty, append-nil, flatten, if_cases, Bool-cases, inl,
  inr,
}
use async_chunker.Result.{ok, err, Ensures}

-- A chunk within bounds.
abbrev pub IsChunk : Bytes → Type 0
IsChunk chunk = (0 < length chunk) × (length chunk ≤ chunk_max)

abbrev pub pending : FramedAudioChunker → Bytes
pending c = c.buffer

-- A chunker between two streams.
abbrev pub base : FramedAudioChunker → FramedAudioChunker
base c = record c { walker = Frames.new; hash = reset c.hash; buffer = [] }

module _ (blake3 : Blake3) where
  -- `Holds` with the bounds that the walker's state sets on the buffer.
  pub record Holds (seam dense : ℕ) (c : FramedAudioChunker) : Type 0 where
    pub room : Room seam dense c.walker.state c.walker.family (length c.buffer)
    pub accepting : c.rejected ≡ false
    pub parameters : base c ≡ new blake3
    pub at_rest : c.buffer ≡ [] → c.hash.hash ≡ 0

  -- Between two bytes; and between the judgement of a seam and the byte.
  abbrev pub Inv : FramedAudioChunker → Type 0
  Inv = Holds chunk_max (chunk_max - 1)

  abbrev Judged : FramedAudioChunker → Type 0
  Judged = Holds (forced_seam_limit - 1) (chunk_max - 1)

  abbrev Filled : FramedAudioChunker → Type 0
  Filled = Holds chunk_max chunk_max

  pub rejects-Keeps :
      (P : FramedAudioChunker → Type 0) (c : FramedAudioChunker) (w : Walker) (bs : Bytes)
      (fault : AudioFault)
      → Keeps IsChunk pending P c bs (rejects (record c { walker = w }) fault)
  unfolding rejects flatten
  rejects-Keeps P c w bs fault = record {
    fits = tt;
    keeps = λ e. cc;
    conserves = λ e. cc;
    unsent = pending c ++ bs;
    is_prefix = refl;
  }

  emit_buffer-Keeps :
      (P : FramedAudioChunker → Type 0) (c : FramedAudioChunker)
      → IsChunk c.buffer
      → P (emptied c)
      → Keeps IsChunk pending P c [] (emit_buffer c)
  unfolding flatten
  emit_buffer-Keeps P c h p = record {
    fits = (h, tt);
    keeps = λ _. p;
    conserves = λ _. simp append-nil;
    unsent = [];
    is_prefix = simp append-nil;
  }

  stays-Keeps :
      (P : FramedAudioChunker → Type 0) (c : FramedAudioChunker)
      → P c
      → Keeps IsChunk pending P c [] (succeed c)
  unfolding flatten
  stays-Keeps P c p = record {
    fits = tt;
    keeps = λ _. p;
    conserves = λ _. sym (append-nil c.buffer);
    unsent = c.buffer;
    is_prefix = sym (append-nil c.buffer);
  }

  -- Room only grows with its bounds, and an empty buffer fits any state that the walker goes on from.
  seam_judged :
      (st : State) (family : Option Frames.Family) (n : ℕ)
      → Room chunk_max (chunk_max - 1) st family n
      → (is_seam st ≡ true → n < forced_seam_limit)
      → Ready st family n
  seam_judged st family n r h = ground arith

  seam_emptied :
      (st : State) (family : Option Frames.Family) (n : ℕ)
      → Room chunk_max (chunk_max - 1) st family n
      → Ready st family 0
  seam_emptied st family n r = ground arith

  opaque_judged :
      (st : State) (family : Option Frames.Family) (n : ℕ)
      → Moved st family n
      → (is_opaque st ≡ true → n < chunk_max)
      → Room chunk_max (chunk_max - 1) st family n
  opaque_judged st family n r h = ground arith

  opaque_emptied :
      (st : State) (family : Option Frames.Family) (n : ℕ)
      → Moved st family n
      → Room chunk_max (chunk_max - 1) st family 0
  opaque_emptied st family n r = ground arith

  room_most :
      (st : State) (family : Option Frames.Family) (n : ℕ) → Moved st family n → n ≤ chunk_max
  room_most st family n r = ground arith

  between_most :
      (st : State) (family : Option Frames.Family) (n : ℕ)
      → Room chunk_max (chunk_max - 1) st family n
      → n ≤ chunk_max
  between_most st family n r = ground arith

  nonempty-length : (bs : Bytes) → not (is_empty bs) ≡ true → 0 < length bs
  nonempty-length [] e = cc
  nonempty-length (b ∷ bs) e = omega arith

  empty-nil : (bs : Bytes) → not (is_empty bs) ≡ false → bs ≡ []
  empty-nil [] e = refl
  empty-nil (b ∷ bs) e = cc

  -- At a seam, where nothing is cut the buffer is below the limit.
  uncut_seam :
      (c : FramedAudioChunker)
      → (at_seam c.walker && not (is_empty c.buffer) && cut_at_seam c) ≡ false
      → is_seam c.walker.state ≡ true
      → length c.buffer < forced_seam_limit
  unfolding at_seam cut_at_seam
  uncut_seam c e s = elim (Bool-cases (not (is_empty c.buffer))) [
    | inr none_left ↦ omega (arith, ap (length {0}) (empty-nil c.buffer none_left))
    | inl left ↦ ground arith
  ]

  before-Keeps : (c : FramedAudioChunker) → Inv c → Keeps IsChunk pending Judged c [] (before c)
  unfolding before
  before-Keeps c i =
      let st = c.walker.state in
      let family = c.walker.family in
      if_cases (Keeps IsChunk pending Judged c [])
        (at_seam c.walker && not (is_empty c.buffer) && cut_at_seam c) _ _
        (λ cut.
          emit_buffer-Keeps Judged c
            (
              nonempty-length c.buffer (ground arith),
              between_most st family (length c.buffer) i.room,
            )
            (record {
              room = seam_emptied st family (length c.buffer) i.room;
              accepting = i.accepting;
              parameters = i.parameters;
              at_rest = λ _. refl;
            }))
        (λ stay. stays-Keeps Judged c (record {
          room = seam_judged st family (length c.buffer) i.room (uncut_seam c stay);
          accepting = i.accepting;
          parameters = i.parameters;
          at_rest = i.at_rest;
        }))

  opaque_least :
      (c : FramedAudioChunker)
      → (in_opaque c.walker && cut_in_opaque c) ≡ true
      → chunk_min ≤ length c.buffer
  unfolding cut_in_opaque
  opaque_least c e = ground arith

  uncut_opaque :
      (c : FramedAudioChunker)
      → (in_opaque c.walker && cut_in_opaque c) ≡ false
      → is_opaque c.walker.state ≡ true
      → length c.buffer < chunk_max
  unfolding in_opaque cut_in_opaque
  uncut_opaque c e s = ground arith

  behind-Keeps : (c : FramedAudioChunker) → Filled c → Keeps IsChunk pending Inv c [] (behind c)
  unfolding behind
  behind-Keeps c i =
      let st = c.walker.state in
      let family = c.walker.family in
      if_cases (Keeps IsChunk pending Inv c []) (in_opaque c.walker && cut_in_opaque c) _ _
        (λ cut.
          let l = opaque_least c cut in
          emit_buffer-Keeps Inv c (omega arith, room_most st family (length c.buffer) i.room)
            (record {
              room = opaque_emptied st family (length c.buffer) i.room;
              accepting = i.accepting;
              parameters = i.parameters;
              at_rest = λ _. refl;
            }))
        (λ stay. stays-Keeps Inv c (record {
          room = opaque_judged st family (length c.buffer) i.room (uncut_opaque c stay);
          accepting = i.accepting;
          parameters = i.parameters;
          at_rest = i.at_rest;
        }))

  consumed-Keeps :
      (c : FramedAudioChunker) (b : ℕ) (r : Walker × W (Unit {0}))
      → Judged c
      → Ensures (λ _. Moved r.0.state r.0.family (length c.buffer + 1)) r.1
      → Keeps IsChunk pending Inv c (b ∷ []) (consumed c b r)
  unfolding consumed update
  consumed-Keeps c b (w, ok _) i h =
      let next = taken c w b in
      let one_more : length next.buffer ≡ length c.buffer + 1 =
        length-append {0} c.buffer (b ∷ []) in
      let k = behind-Keeps next (record {
        room = subst (λ (n : ℕ). Moved w.state w.family n) (sym one_more) h;
        accepting = i.accepting;
        parameters = i.parameters;
        at_rest = λ e. absurd (let z = ap (length {0}) e in omega arith);
      }) in
      let moved = append-nil (pending next) in
      record {
        fits = k.fits;
        keeps = k.keeps;
        conserves = λ e. k.conserves e ∙ moved;
        unsent = k.unsent;
        is_prefix = k.is_prefix ∙ moved;
      }
  consumed-Keeps c b (w, err fault) i h = rejects-Keeps Inv c w (b ∷ []) fault

  pub push_byte-Keeps :
      (c : FramedAudioChunker) (b : ℕ)
      → Inv c
      → Keeps IsChunk pending Inv c (b ∷ []) (push_byte c b)
  unfolding push_byte
  push_byte-Keeps c b i =
      and_then-Keeps IsChunk pending Judged Inv c [] (b ∷ []) (before c)
        (λ d. consumed d b (consume d.walker b)) (before-Keeps c i)
        (λ j.
          let d = (before c).state in
          consumed-Keeps d b (consume d.walker b) j
            (consume-Moved d.walker b (length d.buffer) j.room))

  end_with-Keeps :
      (c : FramedAudioChunker) (r : W (Unit {0}))
      → Inv c
      → Keeps IsChunk pending (λ d. d ≡ new blake3) c [] (end_with c r)
  unfolding end_with flatten
  end_with-Keeps c (ok _) i =
      if_cases (Keeps IsChunk pending (λ d. d ≡ new blake3) c []) (not (is_empty c.buffer)) _ _
        (λ left. record {
          fits = (
            (
              nonempty-length c.buffer left,
              between_most c.walker.state c.walker.family (length c.buffer) i.room,
            ),
            tt,
          );
          keeps = λ _. i.parameters;
          conserves = λ _. simp append-nil;
          unsent = [];
          is_prefix = simp append-nil;
        })
        (λ nothing.
          let b = empty-nil c.buffer nothing in
          let h = i.at_rest b in
          record {
            fits = tt;
            keeps = λ _.
                (λ k. record (base c) { buffer = b k; hash = record c.hash { hash = h k } })
                ∙ i.parameters;
            conserves = λ _. sym (append-nil c.buffer);
            unsent = [];
            is_prefix = sym b ∙ sym (append-nil c.buffer);
          })
  end_with-Keeps c (err fault) i = rejects-Keeps (λ d. d ≡ new blake3) c c.walker [] fault

  pub initial-Inv : Inv (new blake3)
  unfolding new Frames.new
  initial-Inv = record {
    room = omega arith;
    accepting = refl;
    parameters = refl;
    at_rest = λ _. refl;
  }

  pub laws : ChunkerLaws (new blake3) push finish IsChunk pending Inv (λ c. c ≡ new blake3)
  unfolding push finish end_stream
  laws =
      guarded_laws (λ c. c.rejected) refusal push_byte end_stream (new blake3) IsChunk pending Inv
        (λ c. c ≡ new blake3) (λ c i. i.accepting) push_byte-Keeps initial-Inv refl
        (λ c e. ap pending e ∙ unfold new in refl)
        (λ c i. end_with-Keeps c (Frames.finish c.walker) i)
