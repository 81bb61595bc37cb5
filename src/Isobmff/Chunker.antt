-- ===== src/Isobmff/Chunker.antt =====
-- src/chunker/isobmff/chunker.rs: the container chunker over the box walker.
use async_chunker.Assembler
use async_chunker.Assembler.{BoundaryAssembler}
use async_chunker.Assembler.Laws.{IsChunk}
use async_chunker.Chunker.{drive, drive_each}
use async_chunker.Chunker.Whole.{drive-Chunked}
use async_chunker.Container.Rejection.{IsRejected, drive-IsRejected}
use async_chunker.Container.Stream.{container_windows}
use async_chunker.Container.{Format, ContainerChunker}
use async_chunker.Container
use async_chunker.Errors.{ChunkError}
use async_chunker.Gear.{Blake3}
use async_chunker.Isobmff.Boxes.{BoxFault, into_error}
use async_chunker.Isobmff.Walker.{Walker, at_box_boundary, consume}
use async_chunker.Isobmff.Walker as Boxes
use async_chunker.Outcome.{Outcome}
use async_chunker.Prelude.{List, ◌≡◌, refl, none, some, Bytes, All, flatten, ◌++◌}
use async_chunker.Profile.{isobmff_v1, name}

abbrev pub format : Format
format = record {
  Walker = Walker;
  Fault = BoxFault;
  start = Boxes.new;
  begins_unit = λ w byte. at_box_boundary w;
  consume = consume;
  check_end = Boxes.finish;
  offset = λ w. w.offset;
  restart = λ a. a;
  into_error = into_error;
  profile = name isobmff_v1;
}

abbrev pub IsobmffChunker : Type 0
IsobmffChunker = ContainerChunker Walker

abbrev pub assembler : Blake3 → BoundaryAssembler
assembler blake3 = Assembler.new blake3 "legra/isobmff-v1/gear"

abbrev pub new : Blake3 → IsobmffChunker
new blake3 = Container.new format (assembler blake3)

abbrev pub push : IsobmffChunker → Bytes → Outcome IsobmffChunker
push = Container.push format

abbrev pub finish : IsobmffChunker → Outcome IsobmffChunker
finish = Container.finish format

-- A new assembler is fresh.
fresh : (blake3 : Blake3) → Assembler.Laws.Fresh (assembler blake3) (assembler blake3)
unfolding Assembler.new
fresh blake3 = record { no_held = refl; no_buffer = refl; as_new = refl }

-- Every chunk is non-empty and at most the maximum long. If the stream is accepted, the chunks
-- concatenate to it and the chunker is fresh again: nothing held, the walker back at its start. If it
-- is rejected, what was emitted before the rejection is a prefix of it.
pub isobmff_stream :
    (blake3 : Blake3) (bytes : Bytes)
    → let o = drive push finish (new blake3) bytes in
      All IsChunk o.emitted
      × (o.error ≡ none
          → (flatten o.emitted ≡ bytes) × Container.Laws.Fresh format (assembler blake3) o.state)
      × ((rest : Bytes) × (flatten o.emitted ++ rest ≡ bytes))
isobmff_stream blake3 bytes =
    let c =
      drive-Chunked (new blake3) push finish IsChunk Container.Laws.pending
        (Container.Laws.Inv format (assembler blake3))
        (Container.Laws.Fresh format (assembler blake3))
        (Container.Laws.laws format (assembler blake3) (fresh blake3) (λ a h. h)) bytes in
    (c.fits, λ e. (c.whole e, c.reusable e), (c.unsent, c.is_prefix))

-- How a stream is cut into windows does not change its chunks, its result, or the state left.
pub isobmff_windows :
    (blake3 : Blake3) (windows : List Bytes)
    → drive_each push finish (new blake3) windows ≡ drive push finish (new blake3) (flatten windows)
isobmff_windows blake3 = container_windows format (assembler blake3) (fresh blake3) (λ a h. h)

-- A stream that failed, in its bytes or at its end, leaves a chunker that holds nothing and refuses
-- every later `push` and `finish` with the same error, emitting nothing.
pub isobmff_rejection :
    (blake3 : Blake3) (bytes : Bytes) (e : ChunkError)
    → (drive push finish (new blake3) bytes).error ≡ some e
    → IsRejected format (drive push finish (new blake3) bytes).state
isobmff_rejection blake3 = drive-IsRejected format (assembler blake3) (fresh blake3) (λ a h. h)
