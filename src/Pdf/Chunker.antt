-- ===== src/Pdf/Chunker.antt =====
-- src/chunker/pdf/chunker.rs: the container chunker over the walker of documents. Its `finish` makes a new
-- assembler.
use async_chunker.Assembler
use async_chunker.Assembler.{BoundaryAssembler}
use async_chunker.Assembler.Laws.{IsChunk}
use async_chunker.Chunker.{drive, drive_each}
use async_chunker.Container.Rejection.{IsRejected, drive-IsRejected}
use async_chunker.Container.Stream.{container_windows}
use async_chunker.Container.{Format, ContainerChunker}
use async_chunker.Constants.{document_unit_chunk_min}
use async_chunker.Container
use async_chunker.Errors.{ChunkError}
use async_chunker.Gear.{Blake3}
use async_chunker.Pdf.Fault.{PdfFault, into_error}
use async_chunker.Pdf.Walker.Closing.{ended_taken}
use async_chunker.Pdf.Walker.Taken.{taken}
use async_chunker.Pdf.Walker.Ending.{Framed, Reached, new-Past, consume-Past, finish-Framed}
use async_chunker.Container.Accepting.{walk, Accepts, drive-Accepts, walk_inv}
use async_chunker.Pdf.Walker.{Walker, at_item_boundary, consume}
use async_chunker.Pdf.Walker as Items
use async_chunker.Outcome.{Outcome}
use async_chunker.Prelude.{
  ℕ, [], ◌∷◌, ◌∙◌, ◌↔◌, inl, inr, Bool, not, ◌&&◌, ◌||◌, ◌==◌, List, ◌≡◌, refl, none, some, Bytes,
  flatten,
}
use async_chunker.Result.{Result-cases}
use async_chunker.Profile.{pdf_v1, name}

-- `u8::is_ascii_whitespace`, which leaves out the null byte.
unfoldable pub is_ascii_whitespace : ℕ → Bool
is_ascii_whitespace byte = byte == b' ' || byte == 9 || byte == 10 || byte == 12 || byte == 13

abbrev pub assembler : Blake3 → BoundaryAssembler
assembler blake3 = Assembler.with_unit_min blake3 "legra/pdf-v1/gear" document_unit_chunk_min

abbrev pub format : Blake3 → Format
format blake3 = record {
  Walker = Walker;
  Fault = PdfFault;
  start = Items.new;
  begins_unit = λ w byte. at_item_boundary w && not (is_ascii_whitespace byte);
  consume = consume;
  check_end = Items.finish;
  offset = λ w. w.offset;
  restart = λ _. assembler blake3;
  into_error = into_error;
  profile = name pdf_v1;
}

abbrev pub PdfChunker : Type 0
PdfChunker = ContainerChunker Walker

abbrev pub new : Blake3 → PdfChunker
new blake3 = Container.new (format blake3) (assembler blake3)

abbrev pub push : Blake3 → PdfChunker → Bytes → Outcome PdfChunker
push blake3 = Container.push (format blake3)

abbrev pub finish : Blake3 → PdfChunker → Outcome PdfChunker
finish blake3 = Container.finish (format blake3)

-- A new assembler is fresh.
pub fresh : (blake3 : Blake3) → Assembler.Laws.Fresh (assembler blake3) (assembler blake3)
unfolding Assembler.with_unit_min
fresh blake3 = record { no_held = refl; no_buffer = refl; as_new = refl }

-- How a stream is cut into windows does not change its chunks, its result, or the state left.
pub pdf_windows :
    (blake3 : Blake3) (windows : List Bytes)
    → drive_each (push blake3) (finish blake3) (new blake3) windows
      ≡ drive (push blake3) (finish blake3) (new blake3) (flatten windows)
pdf_windows blake3 =
    container_windows (format blake3) (assembler blake3) (fresh blake3) (λ _ _. fresh blake3)

-- A stream that failed, in its bytes or at its end, leaves a chunker that holds nothing and refuses
-- every later `push` and `finish` with the same error, emitting nothing.
pub pdf_rejection :
    (blake3 : Blake3) (bytes : Bytes) (e : ChunkError)
    → (drive (push blake3) (finish blake3) (new blake3) bytes).error ≡ some e
    → IsRejected (format blake3) (drive (push blake3) (finish blake3) (new blake3) bytes).state
pdf_rejection blake3 =
    drive-IsRejected (format blake3) (assembler blake3) (fresh blake3) (λ _ _. fresh blake3)

walk-taken :
    (blake3 : Blake3) (w : Walker) (bytes : Bytes) → walk (format blake3) w bytes ≡ taken w bytes
unfolding walk taken
walk-taken blake3 w [] = refl
walk-taken blake3 w (b ∷ bs) = elim (Result-cases ((consume w b).1)) [
  | inl (large, read) ↦ rw (read, walk, taken) (walk-taken blake3 (consume w b).0 bs)
  | inr (fault, refused) ↦ rw (refused, walk, taken) refl
]

accepted-Framed :
    (blake3 : Blake3) (bytes : Bytes) → Accepts (format blake3) Items.new bytes → Framed bytes
unfolding Accepts taken
accepted-Framed blake3 bytes (w, walked, ended) =
    finish-Framed w bytes
      (walk_inv (format blake3) Reached (λ v b seen large. consume-Past v b seen large) bytes []
        Items.new w (new-Past, refl) walked).0
      ended

Framed-Accepts :
    (blake3 : Blake3) (bytes : Bytes) → Framed bytes → Accepts (format blake3) Items.new bytes
unfolding Accepts
Framed-Accepts blake3 bytes f =
    let (w, read, ends) = ended_taken bytes f.ends in
    (w, walk-taken blake3 Items.new bytes ∙ read, ends)

-- A document is accepted exactly when it begins with `%PDF-` and is made of bytes that the walker takes and behind
-- which an item may begin, then the comment `%%EOF` and a line end, and then nothing but white space.
-- The comment need not be a line of its own.
pub pdf-Framed :
    (blake3 : Blake3) (bytes : Bytes)
    → ((drive (push blake3) (finish blake3) (new blake3) bytes).error ≡ none) ↔ Framed bytes
unfolding Container.new
pdf-Framed blake3 bytes =
    let accepts = drive-Accepts (format blake3) (new blake3) bytes refl in
    (
      λ e. accepted-Framed blake3 bytes (accepts.0 e),
      λ f. accepts.1 (Framed-Accepts blake3 bytes f),
    )
