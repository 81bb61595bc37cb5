-- ===== src/Generic/Laws.antt =====
-- What the generic chunker guarantees of its chunks.
use async_chunker.Constants.{chunk_min, chunk_max}
use async_chunker.Generic.{
  GenericCdcChunker, cut_here, taken, cleared, push_byte, push, flush, finish, new,
}
use async_chunker.Gear.{Blake3, reset}
use async_chunker.Chunker.{ChunkerLaws}
use async_chunker.Outcome.{feed}
use async_chunker.Outcome.Contract.{Keeps, Keeps-weaken, feed-Keeps, feed-succeeds}
use async_chunker.Outcome.Feed.{feed-append}
use async_chunker.Prelude.{
  ℕ, ◌≤◌, ◌<◌, ◌≡◌, refl, sym, ap, ◌∙◌, inl, inr, [], ◌∷◌, ◌++◌, true, false, none, arith, Bytes,
  length, length-append, append-nil, Bool-cases, flatten,
}

module _ (blake3 : Blake3) where
  -- Less than a maximum chunk is held back, the parameters are the initial ones, and the hash is that
  -- of a fresh stream where nothing is held back.
  pub record Inv (c : GenericCdcChunker) : Type 0 where
    pub room : length c.buffer < chunk_max
    pub parameters : cleared c ≡ new blake3
    pub at_rest : c.buffer ≡ [] → c.hash.hash ≡ 0

  pub new-Inv : Inv (new blake3)
  unfolding new
  new-Inv = record { room = omega arith; parameters = refl; at_rest = λ _. refl }

abbrev pub WithinEnvelope : Bytes → Type 0
WithinEnvelope chunk = (chunk_min ≤ length chunk) × (length chunk ≤ chunk_max)

-- The last chunk of a stream.
abbrev pub IsTail : Bytes → Type 0
IsTail chunk = (0 < length chunk) × (length chunk < chunk_max)

cut_here_size : (c : GenericCdcChunker) → cut_here c ≡ true → chunk_min ≤ length c.buffer
unfolding cut_here
cut_here_size c e = ground arith

stay_size : (c : GenericCdcChunker) → cut_here c ≡ false → length c.buffer < chunk_max
unfolding cut_here
stay_size c e = ground arith

concat-ne-nil : (xs : Bytes) (b : ℕ) → xs ++ b ∷ [] ≡ [] → ⊥
concat-ne-nil xs b e = omega (arith, length-append {0} xs (b ∷ []), ap (length {0}) e)

push_byte-Keeps :
    (blake3 : Blake3) (c : GenericCdcChunker) (b : ℕ)
    → Inv blake3 c
    → Keeps WithinEnvelope (λ d. d.buffer) (Inv blake3) c (b ∷ []) (push_byte c b)
unfolding push_byte flatten
push_byte-Keeps blake3 c b i = elim (Bool-cases (cut_here (taken c b))) [
  | inl cut ↦ rw cut (record {
    fits = (
      (
        cut_here_size (taken c b) cut,
        let r = i.room in omega (arith, length-append {0} c.buffer (b ∷ [])),
      ),
      tt,
    );
    keeps = λ _. record { room = omega arith; parameters = i.parameters; at_rest = λ _. refl };
    conserves = λ _. simp append-nil;
    unsent = [];
    is_prefix = simp append-nil;
  })
  | inr stay ↦ rw stay (record {
    fits = tt;
    keeps = λ _. record {
      room = stay_size (taken c b) stay;
      parameters = i.parameters;
      at_rest = λ e. absurd (concat-ne-nil c.buffer b e);
    };
    conserves = λ _. refl;
    unsent = c.buffer ++ b ∷ [];
    is_prefix = refl;
  })
]

push_byte-error : (c : GenericCdcChunker) (b : ℕ) → (push_byte c b).error ≡ none
unfolding push_byte
push_byte-error c b = ground arith

pub push-error : (c : GenericCdcChunker) (bs : Bytes) → (push c bs).error ≡ none
unfolding push
push-error c bs = feed-succeeds push_byte push_byte-error c bs

pub push-Keeps :
    (blake3 : Blake3) (c : GenericCdcChunker) (bs : Bytes)
    → Inv blake3 c
    → Keeps WithinEnvelope (λ d. d.buffer) (Inv blake3) c bs (push c bs)
unfolding push
push-Keeps blake3 c bs i =
    feed-Keeps WithinEnvelope (λ d. d.buffer) (Inv blake3) push_byte (push_byte-Keeps blake3) c bs i

flush-Keeps :
    (blake3 : Blake3) (c : GenericCdcChunker) (held : Bytes)
    → c.buffer ≡ held
    → Inv blake3 c
    → Keeps IsTail (λ d. d.buffer) (λ d. d ≡ new blake3) c [] (flush c held)
unfolding flush flatten
flush-Keeps blake3 c [] e i = record {
  fits = tt;
  keeps = λ _. ap (λ (t : Bytes). record c { buffer = t; hash = reset c.hash }) e ∙ i.parameters;
  conserves = λ _. sym (append-nil c.buffer);
  unsent = [];
  is_prefix = sym e ∙ sym (append-nil c.buffer);
}
flush-Keeps blake3 c (b ∷ bs) e i = record {
  fits = ((omega arith, let r = i.room in omega (arith, ap (length {0}) e)), tt);
  keeps = λ _. i.parameters;
  conserves = λ _. rw e (simp append-nil);
  unsent = [];
  is_prefix = rw e (simp append-nil);
}

abbrev pub IsChunk : Bytes → Type 0
IsChunk chunk = (0 < length chunk) × (length chunk ≤ chunk_max)

-- The generic chunker as an implementation of the trait.
pub laws :
    (blake3 : Blake3)
    → ChunkerLaws
        (new blake3)
        push
        finish
        IsChunk
        (λ c. c.buffer)
        (Inv blake3)
        (λ c. c ≡ new blake3)
unfolding finish push feed
laws blake3 = record {
  initial = new-Inv blake3;
  fresh = refl;
  empty = λ c e. ap (λ (d : GenericCdcChunker). d.buffer) e ∙ unfold new in refl;
  push_keeps = λ c bs i.
      Keeps-weaken WithinEnvelope (λ d. d.buffer) (Inv blake3) IsChunk c bs (push c bs)
        (λ chunk h. omega arith) (push-Keeps blake3 c bs i);
  finish_keeps = λ c i.
      Keeps-weaken IsTail (λ d. d.buffer) (λ d. d ≡ new blake3) IsChunk c [] (finish c)
        (λ chunk h. omega arith) (flush-Keeps blake3 c c.buffer refl i);
  push_nothing = λ c _. refl;
  push_windows = λ c xs ys _. feed-append push_byte c xs ys;
}
