-- ===== src/StructuredText/End.antt =====
-- The end of a text stream, and the chunker as an implementation of the trait.
use mathlib.Core.Path.{subst}
use async_chunker.Chunker.{ChunkerLaws}
use async_chunker.Constants.{chunk_max}
use async_chunker.Gear.{Blake3}
use async_chunker.Outcome.Contract.{Keeps, Keeps-weaken, feed-Keeps, and_then-cong}
use async_chunker.Outcome.Feed.{feed-append}
use async_chunker.Outcome.{Outcome, and_then, feed}
use async_chunker.Prelude.{
  ◌≤◌, ◌<◌, ◌≡◌, refl, sym, ap, ◌∙◌, [], ◌∷◌, ◌++◌, true, false, not, arith, Bytes, length,
  length-append, is_empty, append-nil, if_cases, flatten,
}
use async_chunker.StructuredText.Laws.{
  IsTextChunk, pending, base, Inv, rejects-Keeps, push_byte-Keeps,
}
use async_chunker.StructuredText.{StructuredTextChunker, new, push_byte, push, end_stream, finish}
use async_chunker.Utf8.{at_boundary}
use async_chunker.Utf8.Scalars.Prefix.{nothing_open}
use async_chunker.Utf8.Scalars.{IsText, IsText-nil}

-- Any chunk of text: whole scalars, at least one, and at most the maximum long.
pub record IsPiece (chunk : Bytes) : Type 0 where
  pub is_text : IsText chunk
  pub some_bytes : 0 < length chunk
  pub most : length chunk ≤ chunk_max

nonempty-length : (bs : Bytes) → not (is_empty bs) ≡ true → 0 < length bs
nonempty-length [] e = cc
nonempty-length (b ∷ bs) e = omega arith

empty-nil : (bs : Bytes) → not (is_empty bs) ≡ false → bs ≡ []
empty-nil [] e = refl
empty-nil (b ∷ bs) e = cc

module _ (blake3 : Blake3) where
  -- Between scalars the buffer is text.
  buffer-IsText :
      (c : StructuredTextChunker) → Inv blake3 c → at_boundary c.utf8 ≡ true → IsText c.buffer
  unfolding at_boundary
  buffer-IsText c i e =
      let h = i.holds in
      let closed = nothing_open h.opened c.utf8 h.prefix (ground arith) in
      subst IsText (sym (h.split ∙ ap (◌++◌ h.text) closed ∙ append-nil h.text)) h.is_text

  end_stream-Keeps :
      (c : StructuredTextChunker)
      → Inv blake3 c
      → Keeps IsPiece pending (λ d. d ≡ new blake3) c [] (end_stream c)
  unfolding end_stream flatten
  end_stream-Keeps c i =
      let goal = Keeps IsPiece pending (λ d. d ≡ new blake3) c [] in
      if_cases goal (not (at_boundary c.utf8)) _ _
        (λ inside. rejects-Keeps blake3 IsPiece (λ d. d ≡ new blake3) c [] _)
        (λ between.
          if_cases goal (not (is_empty c.buffer)) _ _
            (λ left. record {
              fits = (
                record {
                  is_text = buffer-IsText c i (ground arith);
                  some_bytes = nonempty-length c.buffer left;
                  most = let r = i.room in omega arith;
                },
                tt,
              );
              keeps = λ _. i.holds.parameters;
              conserves = λ _. simp append-nil;
              unsent = [];
              is_prefix = simp append-nil;
            })
            (λ nothing.
              let b = empty-nil c.buffer nothing in
              let h = i.holds in
              let z : c.last_boundary ≡ 0 = omega (
                arith,
                h.last,
                length-append {0} h.text h.opened,
                ap (length {0}) (sym h.split ∙ b),
              ) in
              let rest = i.at_rest b in
              record {
                fits = tt;
                keeps = λ _.
                    (λ k. record (base c) {
                      buffer = b k;
                      last_boundary = z k;
                      hash = record c.hash { hash = rest k };
                    })
                    ∙ h.parameters;
                conserves = λ _. sym (append-nil c.buffer);
                unsent = [];
                is_prefix = sym b ∙ sym (append-nil c.buffer);
              }))

  pub push-accepting :
      (c : StructuredTextChunker) (bs : Bytes)
      → c.rejected ≡ false
      → push c bs ≡ feed push_byte c bs
  unfolding push
  push-accepting c bs e = rw e

  pub finish-accepting : (c : StructuredTextChunker) → c.rejected ≡ false → finish c ≡ end_stream c
  unfolding finish
  finish-accepting c e = rw e

  feed_bytes-Keeps :
      (c : StructuredTextChunker) (bs : Bytes)
      → Inv blake3 c
      → Keeps IsTextChunk pending (Inv blake3) c bs (feed push_byte c bs)
  feed_bytes-Keeps = feed-Keeps IsTextChunk pending (Inv blake3) push_byte (push_byte-Keeps blake3)

  pub push-Keeps :
      (c : StructuredTextChunker) (bs : Bytes)
      → Inv blake3 c
      → Keeps IsTextChunk pending (Inv blake3) c bs (push c bs)
  push-Keeps c bs i = rw (push-accepting c bs i.holds.accepting) (feed_bytes-Keeps c bs i)

  push-append :
      (c : StructuredTextChunker) (xs ys : Bytes)
      → Inv blake3 c
      → push c (xs ++ ys) ≡ and_then (push c xs) (λ t. push t ys)
  push-append c xs ys i =
      let o = feed push_byte c xs in
      push-accepting c (xs ++ ys) i.holds.accepting
      ∙ feed-append push_byte c xs ys
      ∙ and_then-cong o (λ t. feed push_byte t ys) (λ t. push t ys)
          (λ e. sym (push-accepting o.state ys ((feed_bytes-Keeps c xs i).keeps e).holds.accepting))
      ∙ ap (λ (p : Outcome StructuredTextChunker). and_then p (λ t. push t ys))
          (sym (push-accepting c xs i.holds.accepting))

  pub initial-Inv : Inv blake3 (new blake3)
  unfolding new
  initial-Inv = record {
    holds = record {
      text = [];
      opened = [];
      split = refl;
      last = refl;
      is_text = IsText-nil;
      prefix = refl;
      accepting = refl;
      parameters = refl;
    };
    room = omega arith;
    at_rest = λ _. refl;
  }

  pub laws : ChunkerLaws (new blake3) push finish IsPiece pending (Inv blake3) (λ c. c ≡ new blake3)
  unfolding feed
  laws = record {
    initial = initial-Inv;
    fresh = refl;
    empty = λ c e. ap pending e ∙ unfold new in refl;
    push_keeps = λ c bs i.
        Keeps-weaken IsTextChunk pending (Inv blake3) IsPiece c bs (push c bs)
          (λ chunk t. record {
            is_text = t.is_text;
            some_bytes = let l = t.least in omega arith;
            most = t.most;
          })
          (push-Keeps c bs i);
    finish_keeps = λ c i. rw (finish-accepting c i.holds.accepting) (end_stream-Keeps c i);
    push_nothing = λ c i. push-accepting c [] i.holds.accepting;
    push_windows = push-append;
  }
