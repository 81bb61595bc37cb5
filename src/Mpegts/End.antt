-- ===== src/Mpegts/End.antt =====
-- The end of a transport stream, and the chunker as an implementation of the trait.
use async_chunker.Chunker.{ChunkerLaws}
use async_chunker.Gear.{Blake3}
use async_chunker.Mpegts.Packet.{partial_packet, empty}
use async_chunker.Mpegts.Laws.{
  IsChunk, pending, base, Inv, nonempty-length, empty-nil, rejects-Keeps, push_byte-Keeps,
}
use async_chunker.Mpegts.{MpegtsChunker, new, emptied, push_byte, push, rewound, end_stream, finish}
use async_chunker.Outcome.Contract.{Keeps, feed-Keeps, and_then-cong}
use async_chunker.Outcome.Feed.{feed-append}
use async_chunker.Outcome.{Outcome, emits, succeed, and_then, feed}
use async_chunker.Prelude.{
  ◌≡◌, refl, sym, ap, ◌∙◌, inl, inr, [], ◌∷◌, ◌++◌, false, not, arith, Bytes, append-nil, is_empty,
  Bool-cases, if_cases, flatten, if◌then◌else◌,
}

module _ (blake3 : Blake3) where
  -- The end of a stream that stops between packets.
  flushed-Keeps :
      (c : MpegtsChunker)
      → c.packet ≡ []
      → Inv blake3 c
      → Keeps IsChunk pending
          (λ d. d ≡ new blake3)
          c
          []
          (if not (is_empty c.buffer)
            then emits (rewound (emptied c)) (c.buffer ∷ [])
            else succeed (rewound c))
  unfolding flatten
  flushed-Keeps c p i = elim (Bool-cases (is_empty c.buffer)) [
    | inr some_left ↦ rw some_left (record {
      fits = ((nonempty-length c.buffer some_left, i.room, i.aligned), tt);
      keeps = λ _. (λ k. record (base c) { packet = p k; rejected = i.accepting k }) ∙ i.parameters;
      conserves = λ _. rw p (simp append-nil);
      unsent = [];
      is_prefix = rw p (simp append-nil);
    })
    | inl nothing ↦ rw nothing (
        let b = empty-nil c.buffer nothing in
        let h = i.at_rest b in
        record {
          fits = tt;
          keeps = λ _.
              (λ k. record (base c) {
                packet = p k;
                rejected = i.accepting k;
                buffer = b k;
                hash = record c.hash { hash = h k };
              })
              ∙ i.parameters;
          conserves = λ _. sym (append-nil (pending c));
          unsent = [];
          is_prefix = rw (p, b) refl;
        })
  ]

  -- `finish` from a state between packets.
  end_stream-Keeps :
      (c : MpegtsChunker)
      → Inv blake3 c
      → Keeps IsChunk pending (λ d. d ≡ new blake3) c [] (end_stream c)
  unfolding end_stream flatten
  end_stream-Keeps c i =
      if_cases (Keeps IsChunk pending (λ d. d ≡ new blake3) c []) (not (is_empty c.packet)) _ _
        (λ inside. rejects-Keeps (λ d. d ≡ new blake3) c [] partial_packet c)
        (λ between.
          if_cases (Keeps IsChunk pending (λ d. d ≡ new blake3) c []) (not c.seen_packet) _ _
            (λ unseen. rejects-Keeps (λ d. d ≡ new blake3) c [] empty c)
            (λ seen. flushed-Keeps c (empty-nil c.packet (ground arith)) i))

  push-accepting :
      (c : MpegtsChunker) (bs : Bytes) → c.rejected ≡ false → push c bs ≡ feed push_byte c bs
  unfolding push
  push-accepting c bs e = rw e

  finish-accepting : (c : MpegtsChunker) → c.rejected ≡ false → finish c ≡ end_stream c
  unfolding finish
  finish-accepting c e = rw e

  feed_bytes-Keeps :
      (c : MpegtsChunker) (bs : Bytes)
      → Inv blake3 c
      → Keeps IsChunk pending (Inv blake3) c bs (feed push_byte c bs)
  feed_bytes-Keeps = feed-Keeps IsChunk pending (Inv blake3) push_byte (push_byte-Keeps blake3)

  push-append :
      (c : MpegtsChunker) (xs ys : Bytes)
      → Inv blake3 c
      → push c (xs ++ ys) ≡ and_then (push c xs) (λ t. push t ys)
  push-append c xs ys i =
      let o = feed push_byte c xs in
      push-accepting c (xs ++ ys) i.accepting
      ∙ feed-append push_byte c xs ys
      ∙ and_then-cong o (λ t. feed push_byte t ys) (λ t. push t ys)
          (λ e. sym (push-accepting o.state ys ((feed_bytes-Keeps c xs i).keeps e).accepting))
      ∙ ap (λ (p : Outcome MpegtsChunker). and_then p (λ t. push t ys))
          (sym (push-accepting c xs i.accepting))

  initial-Inv : Inv blake3 (new blake3)
  unfolding new
  initial-Inv = record {
    room = omega arith;
    aligned = refl;
    partial = omega arith;
    accepting = refl;
    parameters = refl;
    at_rest = λ _. refl;
  }

  pub laws : ChunkerLaws (new blake3) push finish IsChunk pending (Inv blake3) (λ c. c ≡ new blake3)
  unfolding feed
  laws = record {
    initial = initial-Inv;
    fresh = refl;
    empty = λ c e. ap pending e ∙ unfold new in refl;
    push_keeps = λ c bs i. rw (push-accepting c bs i.accepting) (feed_bytes-Keeps c bs i);
    finish_keeps = λ c i. rw (finish-accepting c i.accepting) (end_stream-Keeps c i);
    push_nothing = λ c i. push-accepting c [] i.accepting;
    push_windows = push-append;
  }
