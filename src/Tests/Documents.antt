-- ===== src/Tests/Documents.antt =====
-- Runs of the chunker of documents, and of its walker.
use async_chunker.Pdf.Integers.{parse_int_lem}
use async_chunker.Chunker.{drive, drive_each}
use async_chunker.Constants.{chunk_max}
use async_chunker.Container
use async_chunker.Container.Accepting.{Accepts, drive-Accepts}
use async_chunker.Container.Stream.{started, container_progress, container_windows}
use async_chunker.Errors.{malformed_profile_input}
use async_chunker.Pdf.Chunker as Documents
use async_chunker.Pdf.Chunker.{pdf_rejection, fresh, pdf-Framed}
use async_chunker.Pdf.Fault.{into_error, xref_geometry}
use async_chunker.Pdf.Object
use async_chunker.Pdf.Object.{all_digits, parse_int, idle}
use async_chunker.Pdf.Walker as Items
use async_chunker.Pdf.Walker.Ending.{Framed}
use async_chunker.Pdf.Walker.Declared.{in_dict}
use async_chunker.Pdf.Walker.Rooms.{InRoom, after, rooms_hold}
use async_chunker.Pdf.Walker.{
  Walker, State, stream_bytes, stream_scan, object, close_xref_line, endstream,
}
use async_chunker.Prelude.Text.{codes}
use async_chunker.Prelude.{
  ℕ, ◌^◌, ◌<◌, ◌≢◌, true, ◌+◌, ◌*◌, ◌≤◌, ◌≡◌, ◌↔◌, refl, [], ◌∷◌, ◌++◌, none, some, Bytes, flatten,
  length,
}
use async_chunker.Result.{err}
use async_chunker.Tests.{counting}

-- A header, an object with a stream, a trailer and the marks of the end.
abbrev document : Bytes
document =
    codes "%PDF-1.4"
    ++ 10 ∷ codes "1 0 obj<</Length 3>>stream"
    ++ 10 ∷ codes "abc endstream endobj"
    ++ 10 ∷ codes "trailer<</Size 1>>"
    ++ 10 ∷ codes "startxref"
    ++ 10 ∷ codes "9"
    ++ 10 ∷ codes "%%EOF"
    ++ 10 ∷ []

abbrev no_document : Bytes
no_document = codes "%PDX"

accepts_document :
    (drive
      (Documents.push counting)
      (Documents.finish counting)
      (Documents.new counting)
      document).error
    ≡ none
unfolding drive Container.new Container.push Container.finish Items.consume Items.new Items.finish
accepts_document = refl

pdf-Framed_example :
    ((drive
        (Documents.push counting)
        (Documents.finish counting)
        (Documents.new counting)
        document).error
      ≡ none)
    ↔ Framed document
pdf-Framed_example = pdf-Framed counting document

-- The comment at the end may stand behind another item on its line.
accepts_comment_behind_item :
    (drive
      (Documents.push counting)
      (Documents.finish counting)
      (Documents.new counting)
      (codes "%PDF-1.4" ++ 10 ∷ codes "startxref 9 %%EOF" ++ 10 ∷ [])).error
    ≡ none
unfolding drive Container.new Container.push Container.finish Items.consume Items.new Items.finish
accepts_comment_behind_item = refl

rejects_no_document :
    (drive
      (Documents.push counting)
      (Documents.finish counting)
      (Documents.new counting)
      no_document).error
    ≡ some (malformed_profile_input "pdf-v1" 4 "stream does not begin with %PDF-")
unfolding drive Container.new Container.push Container.finish Items.consume Items.new Items.finish
    into_error
rejects_no_document = refl

rooms_hold_example : InRoom (after Items.new document).state
rooms_hold_example = rooms_hold document

-- In a dictionary, where one entry was read.
abbrev in_stream_dict : Walker
in_stream_dict = record Items.new { state = object (in_dict idle) }

-- A payload that holds `endstream` itself.
abbrev tricky : Bytes
tricky = codes "an endstream"

drive-Accepts_example :
    ((drive
        (Container.push (Documents.format counting))
        (Container.finish (Documents.format counting))
        (Documents.new counting)
        document).error
      ≡ none)
    ↔ Accepts (Documents.format counting) Items.new document
unfolding Container.new
drive-Accepts_example =
    drive-Accepts (Documents.format counting) (Documents.new counting) document refl

takes_document :
    (Container.push
      (Documents.format counting)
      (started
        (Documents.format counting)
        (Documents.assembler counting)
        (fresh counting)
        (λ _ _. fresh counting)
        Items.new)
      document).error
    ≡ none
unfolding Container.push Items.consume Items.new
takes_document = refl

container_progress_example :
    length document
    ≤ length (
        flatten
          (Container.push
            (Documents.format counting)
            (started
              (Documents.format counting)
              (Documents.assembler counting)
              (fresh counting)
              (λ _ _. fresh counting)
              Items.new)
            document).emitted)
      + 2 * chunk_max
container_progress_example =
    container_progress (Documents.format counting) (Documents.assembler counting) (fresh counting)
      (λ _ _. fresh counting) Items.new document takes_document

container_windows_example :
    drive_each
      (Documents.push counting)
      (Documents.finish counting)
      (Documents.new counting)
      (no_document ∷ document ∷ [])
    ≡ drive
        (Documents.push counting)
        (Documents.finish counting)
        (Documents.new counting)
        (flatten (no_document ∷ document ∷ []))
container_windows_example =
    container_windows (Documents.format counting) (Documents.assembler counting) (fresh counting)
      (λ _ _. fresh counting) (no_document ∷ document ∷ [])

-- A restart within the word: the scan does not see this `endstream`.
missed_endstream :
    (after (record Items.new { state = stream_scan Object.new 0 }) (codes "endstrendstream")).state
    ≡ stream_scan Object.new 0
unfolding after Items.consume Items.stream_scan_step
missed_endstream = refl

-- A line of two words is read as a subsection header, also if it begins a trailer.
trailer_refused : close_xref_line Items.new (codes "trailer <<") ≡ err xref_geometry
unfolding close_xref_line
trailer_refused = refl

parse_int_lem_example : (parse_int (codes "0042") ≡ some 42) ↔ (
    (codes "0042" ≢ []) × (all_digits (codes "0042") ≡ true) × (◌≡◌ {A = ℕ} 42 42) × (42 < 2 ^ 64))
parse_int_lem_example = parse_int_lem (codes "0042") 42
