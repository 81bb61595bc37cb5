-- ===== src/Tests/Packages.antt =====
-- Runs of the chunker of Office packages.
use async_chunker.Assembler.Laws.{IsChunk}
use async_chunker.Chunker.{drive}
use async_chunker.Container
use async_chunker.Errors.{malformed_profile_input}
use async_chunker.Office.Ber as Office
use async_chunker.Office.Ber.Packages.{IsPackage, ber_packages}
use async_chunker.Office.Ber.{ber_stream, ber_rejection}
use async_chunker.Office.Fault.{into_error}
use async_chunker.Office.Kind.{word, excel, content_types, main_part}
use async_chunker.Office.Package.Calls.{observe-is_package}
use async_chunker.Office.Package.Names.{names, is_package}
use async_chunker.Office.Package.{PackageCheck, observe, close}
use async_chunker.Office.Package
use async_chunker.Prelude.{
  ◌≡◌, ◌↔◌, refl, true, false, List, [], ◌∷◌, ◌++◌, none, some, Bytes, All, flatten, length,
  replicate,
}
use async_chunker.Result.{ok}
use async_chunker.Tests.{counting}
use async_chunker.Zip.State.{Event, local_header, central_begun}

-- A stored member of no bytes, and its entry in the central directory.
abbrev local_entry : Bytes → Bytes
local_entry name = 0x50 ∷ 0x4b ∷ 3 ∷ 4 ∷ 20 ∷ 0 ∷ replicate 20 0 ++ (length name ∷ 0 ∷ 0 ∷ 0 ∷ name)

abbrev central_entry : Bytes → Bytes
central_entry name =
    0x50 ∷ 0x4b ∷ 1 ∷ 2 ∷ 20 ∷ 0 ∷ 20 ∷ 0 ∷ replicate 20 0
    ++ (length name ∷ 0 ∷ replicate 16 0 ++ name)

abbrev text_document : Bytes
text_document =
    local_entry content_types
    ++ (local_entry (main_part word)
        ++ (central_entry content_types
            ++ (central_entry (main_part word)
                ++ (0x50 ∷ 0x4b ∷ 5 ∷ 6 ∷ 0 ∷ 0 ∷ 0 ∷ 0 ∷ 2 ∷ 0 ∷ 2 ∷ 0 ∷ 128 ∷ 0 ∷ 0 ∷ 0 ∷ 96 ∷ 0
                    ∷ 0 ∷ 0 ∷ 0 ∷ 0 ∷ []))))

accepts_text_document :
    (drive
      (Office.push counting)
      (Office.finish counting)
      (Office.expecting counting (some word))
      text_document).error
    ≡ none
unfolding drive Container.push Container.finish Office.consume Office.start Office.check_end
accepts_text_document = refl

ber_stream_example :
    let o =
      drive
        (Office.push counting)
        (Office.finish counting)
        (Office.expecting counting (some word))
        text_document in
    All IsChunk o.emitted
    × (o.error ≡ none → (flatten o.emitted ≡ text_document) × (o.state ≡ Office.new counting))
    × ((rest : Bytes) × (flatten o.emitted ++ rest ≡ text_document))
ber_stream_example = ber_stream counting (some word) text_document

ber_packages_example :
    ((drive
        (Office.push counting)
        (Office.finish counting)
        (Office.expecting counting (some excel))
        text_document).error
      ≡ none)
    ↔ IsPackage (some excel) text_document
ber_packages_example = ber_packages counting (some excel) text_document

-- An archive without members is no package.
abbrev no_members : Bytes
no_members = 0x50 ∷ 0x4b ∷ 5 ∷ 6 ∷ replicate 18 0

refuses_no_members :
    (drive (Office.push counting) (Office.finish counting) (Office.new counting) no_members).error
    ≡ some (malformed_profile_input "ooxml-ber-v1" 22 "first member is not [Content_Types].xml")
unfolding drive Container.new Container.push Container.finish Office.consume Office.start
    Office.check_end into_error
refuses_no_members = refl

abbrev calls : List Event
calls =
    local_header content_types 0 false false none 0
    ∷ local_header (main_part excel) 8 true false none 0
    ∷ central_begun
    ∷ []

observe-is_package_example :
    ((c : PackageCheck) × (observe (Package.new none) calls ≡ ok c) × (close c ≡ ok tt))
    ↔ (is_package none (names calls) ≡ true)
observe-is_package_example = observe-is_package none calls
