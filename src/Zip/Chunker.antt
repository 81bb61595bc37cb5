-- ===== src/Zip/Chunker.antt =====
-- src/chunker/zip/chunker.rs: the container chunker over the archive walker.
use async_chunker.Assembler
use async_chunker.Assembler.{BoundaryAssembler}
use async_chunker.Assembler.Laws.{IsChunk}
use async_chunker.Chunker.{drive, drive_each}
use async_chunker.Container.Rejection.{IsRejected, drive-IsRejected}
use async_chunker.Container.Stream.{container_windows}
use async_chunker.Container.{Format, ContainerChunker}
use async_chunker.Container
use async_chunker.Errors.{ChunkError}
use async_chunker.Gear.{Blake3}
use async_chunker.Zip.Fault.{ZipFault, into_error}
use async_chunker.Zip.State.{Walker}
use async_chunker.Zip.Walker.{at_member_boundary, consume_untapped}
use async_chunker.Zip.Walker as Records
use async_chunker.Outcome.{Outcome}
use async_chunker.Prelude.{List, ◌≡◌, refl, some, Bytes, flatten}
use async_chunker.Profile.{zip_v1, name}

abbrev pub format : Format
format = record {
  Walker = Walker;
  Fault = ZipFault;
  start = Records.new;
  begins_unit = λ w byte. at_member_boundary w;
  consume = consume_untapped;
  check_end = Records.finish;
  offset = λ w. w.offset;
  restart = λ a. a;
  into_error = into_error;
  profile = name zip_v1;
}

abbrev pub ZipChunker : Type 0
ZipChunker = ContainerChunker Walker

abbrev pub assembler : Blake3 → BoundaryAssembler
assembler blake3 = Assembler.new blake3 "legra/zip-v1/gear"

abbrev pub new : Blake3 → ZipChunker
new blake3 = Container.new format (assembler blake3)

abbrev pub push : ZipChunker → Bytes → Outcome ZipChunker
push = Container.push format

abbrev pub finish : ZipChunker → Outcome ZipChunker
finish = Container.finish format

-- A new assembler is fresh.
fresh : (blake3 : Blake3) → Assembler.Laws.Fresh (assembler blake3) (assembler blake3)
unfolding Assembler.new
fresh blake3 = record { no_held = refl; no_buffer = refl; as_new = refl }

-- How a stream is cut into windows does not change its chunks, its result, or the state left.
pub zip_windows :
    (blake3 : Blake3) (windows : List Bytes)
    → drive_each push finish (new blake3) windows ≡ drive push finish (new blake3) (flatten windows)
zip_windows blake3 = container_windows format (assembler blake3) (fresh blake3) (λ a h. h)

-- A stream that failed, in its bytes or at its end, leaves a chunker that holds nothing and refuses
-- every later `push` and `finish` with the same error, emitting nothing.
pub zip_rejection :
    (blake3 : Blake3) (bytes : Bytes) (e : ChunkError)
    → (drive push finish (new blake3) bytes).error ≡ some e
    → IsRejected format (drive push finish (new blake3) bytes).state
zip_rejection blake3 = drive-IsRejected format (assembler blake3) (fresh blake3) (λ a h. h)
