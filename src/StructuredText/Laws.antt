-- ===== src/StructuredText/Laws.antt =====
-- What the structured-text chunker guarantees of its chunks, byte by byte.
use mathlib.Core.Path.{subst}
use async_chunker.Constants.{chunk_min, chunk_max}
use async_chunker.Gear.{Blake3, GearHash, update, update_all, reset}
use async_chunker.Outcome.Contract.{Keeps}
use async_chunker.Outcome.{Outcome, succeed}
use async_chunker.Prelude.{
  ℕ, ◌+◌, ◌≤◌, ◌<◌, ◌≡◌, ◌≢◌, refl, sym, ap, ◌∙◌, ◌⊎◌, inl, inr, [], ◌∷◌, ◌++◌, Bool, true, false,
  arith, String, Bytes, length, length-append, append-nil, append_assoc, flatten, take, drop,
  take-append, drop-append, take-append-drop, if_cases, Bool-cases, leb,
}
use async_chunker.Result.{Result, ok, err, Ensures}
use async_chunker.StructuredText.Seam.{Candidate, classify}
use async_chunker.StructuredText.{
  StructuredTextChunker, new, rejects, cuts_at, cut_here, emptied, emit_whole,
  emit_to_last_boundary, taken, marked, place, scanned, push_byte, rewound,
}
use async_chunker.Utf8.Scalars.Prefix.{Prefix, Read, push-Reads}
use async_chunker.Utf8.Scalars.{IsText, IsText-nil, IsText-append}
use async_chunker.Utf8.{Utf8Scanner, Utf8Fault}
use async_chunker.Utf8

-- The last byte is a line end or a soft break.
abbrev pub EndsAtSeam : Bytes → Type 0
EndsAtSeam chunk =
    (front : Bytes) × (b : ℕ) × (chunk ≡ front ++ b ∷ []) × (classify b ≢ Candidate.none)

-- What a chunk of text is that `push` emits: whole scalars, within the envelope, cut at a seam unless
-- the maximum forced it, which leaves at most three bytes to spare.
pub record IsTextChunk (chunk : Bytes) : Type 0 where
  pub is_text : IsText chunk
  pub least : chunk_min ≤ length chunk
  pub most : length chunk ≤ chunk_max
  pub seam : EndsAtSeam chunk ⊎ (chunk_max ≤ length chunk + 3)

abbrev pub pending : StructuredTextChunker → Bytes
pending c = c.buffer

-- The state of a stream that starts over.
abbrev pub base : StructuredTextChunker → StructuredTextChunker
base c = rewound (emptied c)

prefix_short : (p : Bytes) (s : Utf8Scanner) → Prefix p s → length p ≤ 3
prefix_short [] s h = omega arith
prefix_short (a ∷ []) s h = omega arith
prefix_short (a ∷ b ∷ []) s h = omega arith
prefix_short (a ∷ b ∷ c ∷ []) s h = omega arith
prefix_short (a ∷ b ∷ c ∷ d ∷ p) s h = absurd h

update_all-table : (g : GearHash) (bs : Bytes) → (update_all g bs).table ≡ g.table
unfolding update update_all
update_all-table g [] = refl
update_all-table g (b ∷ bs) = update_all-table (update g b) bs

module _ (blake3 : Blake3) where
  -- The buffer is whole scalars up to `last_boundary`, and then the bytes of an open one.
  pub record Holds (c : StructuredTextChunker) : Type 0 where
    pub text : Bytes
    pub opened : Bytes
    pub split : c.buffer ≡ text ++ opened
    pub last : length text ≡ c.last_boundary
    pub is_text : IsText text
    pub prefix : Prefix opened c.utf8
    pub accepting : c.rejected ≡ false
    pub parameters : base c ≡ new blake3

  pub record Inv (c : StructuredTextChunker) : Type 0 where
    pub holds : Holds c
    pub room : length c.buffer < chunk_max
    pub at_rest : c.buffer ≡ [] → c.hash.hash ≡ 0

  pub rejects-Keeps :
      (Fits : Bytes → Type 0) (P : StructuredTextChunker → Type 0) (c : StructuredTextChunker)
      (bs : Bytes) (reason : String)
      → Keeps Fits pending P c bs (rejects c reason)
  unfolding rejects flatten
  rejects-Keeps Fits P c bs reason = record {
    fits = tt;
    keeps = λ e. cc;
    conserves = λ e. cc;
    unsent = pending c ++ bs;
    is_prefix = refl;
  }

  emit_whole-Keeps :
      (c : StructuredTextChunker)
      → IsTextChunk c.buffer
      → c.utf8.remaining ≡ 0
      → c.rejected ≡ false
      → base c ≡ new blake3
      → Keeps IsTextChunk pending Inv c [] (emit_whole c)
  unfolding flatten
  emit_whole-Keeps c chunk between accepting parameters = record {
    fits = (chunk, tt);
    keeps = λ _. record {
      holds = record {
        text = [];
        opened = [];
        split = refl;
        last = refl;
        is_text = IsText-nil;
        prefix = between;
        accepting = accepting;
        parameters = parameters;
      };
      room = omega arith;
      at_rest = λ _. refl;
    };
    conserves = λ _. simp append-nil;
    unsent = [];
    is_prefix = simp append-nil;
  }

  -- A forced cut inside a scalar.
  emit_to_last_boundary-Keeps :
      (c : StructuredTextChunker)
      → Holds c
      → length c.buffer ≡ chunk_max
      → Keeps IsTextChunk pending Inv c [] (emit_to_last_boundary c)
  unfolding emit_to_last_boundary flatten update_all
  emit_to_last_boundary-Keeps c h full =
      let closed : take c.last_boundary c.buffer ≡ h.text =
        ap (λ (n : ℕ). take n c.buffer) (sym h.last)
        ∙ ap (take {0} (length h.text)) h.split
        ∙ take-append h.text h.opened in
      let tail : drop c.last_boundary c.buffer ≡ h.opened =
        ap (λ (n : ℕ). drop n c.buffer) (sym h.last)
        ∙ ap (drop {0} (length h.text)) h.split
        ∙ drop-append h.text h.opened in
      let sizes : length h.text + length h.opened ≡ chunk_max =
        sym (length-append h.text h.opened) ∙ sym (ap (length {0}) h.split) ∙ full in
      let few = prefix_short h.opened c.utf8 h.prefix in
      record {
        fits = (
          subst IsTextChunk (sym closed) (record {
            is_text = h.is_text;
            least = omega arith;
            most = omega arith;
            seam = inr (omega arith);
          }),
          tt,
        );
        keeps = λ _. record {
          holds = record {
            text = [];
            opened = h.opened;
            split = tail;
            last = refl;
            is_text = IsText-nil;
            prefix = h.prefix;
            accepting = h.accepting;
            parameters =
                ap (λ (t : ℕ → ℕ). record (base c) { hash = record { table = t; hash = 0 } })
                  (update_all-table (reset c.hash) (drop c.last_boundary c.buffer))
                ∙ h.parameters;
          };
          room = omega (arith, ap (length {0}) tail);
          at_rest = λ e. ap (λ (t : Bytes). (update_all (reset c.hash) t).hash) e;
        };
        conserves = λ _. simp (append-nil, take-append-drop);
        unsent = drop c.last_boundary c.buffer;
        is_prefix = simp (append-nil, take-append-drop);
      }

  cut_here_chunk :
      (c : StructuredTextChunker) (front : Bytes) (b : ℕ)
      → c.buffer ≡ front ++ b ∷ []
      → cut_here c b ≡ true
      → length c.buffer ≤ chunk_max
      → IsText c.buffer
      → IsTextChunk c.buffer
  unfolding cut_here cuts_at
  cut_here_chunk c front b e cut h t = record {
    is_text = t;
    least = ground arith;
    most = h;
    seam = elim (Bool-cases (leb chunk_max (length c.buffer))) [
      | inl forced ↦ inr (ground arith)
      | inr free ↦ inl (front, b, e, λ n. ground arith)
    ];
  }

  stays_room :
      (c : StructuredTextChunker) (b : ℕ) → cut_here c b ≡ false → length c.buffer < chunk_max
  unfolding cut_here
  stays_room c b e = ground arith

  append-ne-nil : (xs : Bytes) (b : ℕ) → xs ++ b ∷ [] ≡ [] → ⊥
  append-ne-nil xs b e = omega (arith, length-append {0} xs (b ∷ []), ap (length {0}) e)

  with_byte :
      (c : StructuredTextChunker) (h : Holds c) (b : ℕ)
      → c.buffer ++ b ∷ [] ≡ h.text ++ (h.opened ++ b ∷ [])
  with_byte c h b = ap (λ (t : Bytes). t ++ b ∷ []) h.split ∙ append_assoc h.text h.opened (b ∷ [])

  -- The byte taken is part of what the chunker then holds.
  from_taken :
      (c : StructuredTextChunker) (utf8 : Utf8Scanner) (b : ℕ) (o : Outcome StructuredTextChunker)
      → Keeps IsTextChunk pending Inv (taken c utf8 b) [] o
      → Keeps IsTextChunk pending Inv c (b ∷ []) o
  from_taken c utf8 b o k =
      let moved = append-nil (pending (taken c utf8 b)) in
      record {
        fits = k.fits;
        keeps = k.keeps;
        conserves = λ e. k.conserves e ∙ moved;
        unsent = k.unsent;
        is_prefix = k.is_prefix ∙ moved;
      }

  -- A chunker that only holds what it had.
  stays-Keeps :
      (c d : StructuredTextChunker)
      → d.buffer ≡ c.buffer
      → Inv d
      → Keeps IsTextChunk pending Inv c [] (succeed d)
  unfolding flatten
  stays-Keeps c d e i = record {
    fits = tt;
    keeps = λ _. i;
    conserves = λ _. e ∙ sym (append-nil c.buffer);
    unsent = d.buffer;
    is_prefix = e ∙ sym (append-nil c.buffer);
  }

  module _ (c : StructuredTextChunker) (utf8 : Utf8Scanner) (b : ℕ) (i : Inv c) where
    one_more : length (c.buffer ++ b ∷ []) ≤ chunk_max
    one_more = let r = i.room in omega (arith, length-append {0} c.buffer (b ∷ []))

    opened-Keeps :
        Prefix (i.holds.opened ++ b ∷ []) utf8
        → Keeps IsTextChunk pending Inv (taken c utf8 b) [] (place (taken c utf8 b) b false)
    unfolding place update
    opened-Keeps p =
        let h = i.holds in
        let next = taken c utf8 b in
        let held : Holds next = record {
          text = h.text;
          opened = h.opened ++ b ∷ [];
          split = with_byte c h b;
          last = h.last;
          is_text = h.is_text;
          prefix = p;
          accepting = h.accepting;
          parameters = h.parameters;
        } in
        let size = one_more in
        if_cases (Keeps IsTextChunk pending Inv next []) (leb chunk_max (length next.buffer)) _ _
          (λ full. emit_to_last_boundary-Keeps next held (ground arith))
          (λ fits. stays-Keeps next next refl (record {
            holds = held;
            room = ground arith;
            at_rest = λ e. absurd (append-ne-nil c.buffer b e);
          }))

    completed-Keeps :
        IsText (i.holds.opened ++ b ∷ [])
        → utf8.remaining ≡ 0
        → Keeps IsTextChunk pending Inv (taken c utf8 b) [] (place (taken c utf8 b) b true)
    unfolding place update
    completed-Keeps t between =
        let h = i.holds in
        let next = marked (taken c utf8 b) in
        let whole : IsText next.buffer =
          subst IsText (sym (with_byte c h b))
            (IsText-append h.text (h.opened ++ b ∷ []) h.is_text t) in
        if_cases (Keeps IsTextChunk pending Inv (taken c utf8 b) []) (cut_here next b) _ _
          (λ cut. at_mark (
            emit_whole-Keeps next (cut_here_chunk next c.buffer b refl cut one_more whole) between
              h.accepting h.parameters))
          (λ stay. stays-Keeps (taken c utf8 b) next refl (record {
            holds = record {
              text = next.buffer;
              opened = [];
              split = sym (append-nil next.buffer);
              last = refl;
              is_text = whole;
              prefix = between;
              accepting = h.accepting;
              parameters = h.parameters;
            };
            room = stays_room next b stay;
            at_rest = λ e. absurd (append-ne-nil c.buffer b e);
          }))
      where
        at_mark :
            {o : Outcome StructuredTextChunker}
            → Keeps IsTextChunk pending Inv (marked (taken c utf8 b)) [] o
            → Keeps IsTextChunk pending Inv (taken c utf8 b) [] o
        at_mark k = record {
          fits = k.fits;
          keeps = k.keeps;
          conserves = k.conserves;
          unsent = k.unsent;
          is_prefix = k.is_prefix;
        }

  scanned-Keeps :
      (c : StructuredTextChunker) (b : ℕ) (i : Inv c) (r : Result Utf8Fault (Utf8Scanner × Bool))
      → Ensures (Read i.holds.opened b) r
      → Keeps IsTextChunk pending Inv c (b ∷ []) (scanned c b r)
  unfolding scanned
  scanned-Keeps c b i (ok (utf8, true)) (t, between) =
      from_taken c utf8 b (place (taken c utf8 b) b true) (completed-Keeps c utf8 b i t between)
  scanned-Keeps c b i (ok (utf8, false)) p =
      from_taken c utf8 b (place (taken c utf8 b) b false) (opened-Keeps c utf8 b i p)
  scanned-Keeps c b i (err fault) _ = rejects-Keeps IsTextChunk Inv c (b ∷ []) (Utf8.detail fault)

  pub push_byte-Keeps :
      (c : StructuredTextChunker) (b : ℕ)
      → Inv c
      → Keeps IsTextChunk pending Inv c (b ∷ []) (push_byte c b)
  unfolding push_byte
  push_byte-Keeps c b i =
      scanned-Keeps c b i (Utf8.push c.utf8 b) (push-Reads i.holds.opened c.utf8 b i.holds.prefix)
