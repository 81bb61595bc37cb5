-- ===== src/Office/Ber.antt =====
-- src/chunker/office/ber.rs: the container chunker over the archive walker and the package check. A call
-- of the tap that follows a fault is lost with the stream.
pub mod Packages
use async_chunker.Assembler
use async_chunker.Assembler.Laws.{IsChunk}
use async_chunker.Assembler.{BoundaryAssembler}
use async_chunker.Chunker.Whole.{drive-Chunked, drive_each-drive}
use async_chunker.Chunker.{drive, drive_each}
use async_chunker.Constants.{document_unit_chunk_min}
use async_chunker.Container
use async_chunker.Container.Rejection.{IsRejected, drive-IsRejected}
use async_chunker.Container.Stream.{container_stream, container_windows}
use async_chunker.Container.Accepting.{Restarted, remade, drive-Restarted}
use async_chunker.Container.{Format, ContainerChunker}
use async_chunker.Errors.{ChunkError}
use async_chunker.Gear.{Blake3}
use async_chunker.Office.Fault.{OfficeFault, zip, into_error}
use async_chunker.Office.Kind.{OfficeKind}
use async_chunker.Office.Package
use async_chunker.Office.Package.{PackageCheck, observe, close}
use async_chunker.Outcome.{Outcome}
use async_chunker.Prelude.{
  ℕ, Bool, false, Option, none, some, List, [], ◌≡◌, refl, Bytes, All, flatten, ◌++◌,
}
use async_chunker.Profile.{ooxml_ber_v1, name}
use async_chunker.Result.{Result, ok, err}
use async_chunker.Zip.Fault.{ZipFault}
use async_chunker.Zip.State.{Event}
use async_chunker.Zip.State as Archive
use async_chunker.Zip.Walker as Records
use async_chunker.Zip.Walker.{at_member_boundary}

-- The fields `walker` and `check` of the chunker.
pub record Walker : Type 0 where
  pub archive : Archive.Walker
  pub check : PackageCheck

abbrev pub W : Type 0 → Type 0
W = Result OfficeFault

unfoldable pub start : Option OfficeKind → Walker
unfolding Records.new Package.new
start kind = record { archive = Records.new; check = Package.new kind }

-- The check behind the calls, if it found no fault.
unfoldable pub checked : Walker → Option ℕ → W PackageCheck → Walker × W (Option ℕ)
checked w large (ok check) = (record w { check = check }, ok large)
checked w large (err fault) = (w, err fault)

-- What the archive walker returned, with its calls.
unfoldable pub tapped :
    PackageCheck → Archive.Walker × Result ZipFault (List Event × Option ℕ) → Walker × W (Option ℕ)
unfolding checked observe
tapped check (v, ok (events, large)) =
    checked (record { archive = v; check = check }) large (observe check events)
tapped check (v, err fault) = (record { archive = v; check = check }, err (zip fault))

unfoldable pub consume : Walker → ℕ → Walker × W (Option ℕ)
unfolding tapped Records.consume
consume w byte = tapped w.check (Records.consume w.archive byte)

-- The archive's end, and then the package's.
unfoldable pub closed : PackageCheck → Result ZipFault (Unit {0}) → W (Unit {0})
unfolding close
closed check (ok _) = close check
closed check (err fault) = err (zip fault)

unfoldable pub check_end : Walker → W (Unit {0})
unfolding closed Records.finish
check_end w = closed w.check (Records.finish w.archive)

abbrev pub assembler : Blake3 → BoundaryAssembler
assembler blake3 = Assembler.with_unit_min blake3 "legra/ooxml-ber-v1/gear" document_unit_chunk_min

-- `start` is what `finish` makes of the chunker: one that expects no kind.
abbrev pub format : Blake3 → Format
format blake3 = record {
  Walker = Walker;
  Fault = OfficeFault;
  start = start none;
  begins_unit = λ w byte. at_member_boundary w.archive;
  consume = consume;
  check_end = check_end;
  offset = λ w. (w.archive).offset;
  restart = λ _. assembler blake3;
  into_error = λ fault offset. into_error fault ooxml_ber_v1 offset;
  profile = name ooxml_ber_v1;
}

abbrev pub OoxmlBerChunker : Type 0
OoxmlBerChunker = ContainerChunker Walker

abbrev pub expecting : Blake3 → Option OfficeKind → OoxmlBerChunker
expecting blake3 kind = record {
  walker = start kind;
  assembler = assembler blake3;
  rejected = false;
}

abbrev pub new : Blake3 → OoxmlBerChunker
new blake3 = Container.new (format blake3) (assembler blake3)

abbrev pub push : Blake3 → OoxmlBerChunker → Bytes → Outcome OoxmlBerChunker
push blake3 = Container.push (format blake3)

abbrev pub finish : Blake3 → OoxmlBerChunker → Outcome OoxmlBerChunker
finish blake3 = Container.finish (format blake3)

-- A new assembler is fresh.
pub fresh : (blake3 : Blake3) → Assembler.Laws.Fresh (assembler blake3) (assembler blake3)
unfolding Assembler.with_unit_min
fresh blake3 = record { no_held = refl; no_buffer = refl; as_new = refl }

-- For a chunker that expects a kind of package, or any: every chunk is non-empty and at most the maximum long. If the stream is accepted, the chunks
-- concatenate to it and the chunker is a new one again, one that expects no kind. If it is rejected, what was emitted before
-- the rejection is a prefix of it.
pub ber_stream :
    (blake3 : Blake3) (kind : Option OfficeKind) (bytes : Bytes)
    → let o = drive (push blake3) (finish blake3) (expecting blake3 kind) bytes in
      All IsChunk o.emitted
      × (o.error ≡ none → (flatten o.emitted ≡ bytes) × (o.state ≡ new blake3))
      × ((rest : Bytes) × (flatten o.emitted ++ rest ≡ bytes))
unfolding Container.new Restarted remade
ber_stream blake3 kind bytes =
    let c =
      container_stream (format blake3) (assembler blake3) (fresh blake3) (λ _ _. fresh blake3)
        (start kind) bytes in
    (
      c.fits,
      λ e. (c.whole e, (drive-Restarted (format blake3) (expecting blake3 kind) bytes refl e).1),
      (c.unsent, c.is_prefix),
    )

-- How a stream is cut into windows does not change its chunks, its result, or the state left.
pub ber_windows :
    (blake3 : Blake3) (windows : List Bytes)
    → drive_each (push blake3) (finish blake3) (new blake3) windows
      ≡ drive (push blake3) (finish blake3) (new blake3) (flatten windows)
ber_windows blake3 =
    container_windows (format blake3) (assembler blake3) (fresh blake3) (λ _ _. fresh blake3)

-- A stream that failed, in its bytes or at its end, leaves a chunker that holds nothing and refuses
-- every later `push` and `finish` with the same error, emitting nothing.
pub ber_rejection :
    (blake3 : Blake3) (bytes : Bytes) (e : ChunkError)
    → (drive (push blake3) (finish blake3) (new blake3) bytes).error ≡ some e
    → IsRejected (format blake3) (drive (push blake3) (finish blake3) (new blake3) bytes).state
ber_rejection blake3 =
    drive-IsRejected (format blake3) (assembler blake3) (fresh blake3) (λ _ _. fresh blake3)
