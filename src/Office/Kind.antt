-- ===== src/Office/Kind.antt =====
-- src/chunker/office/kind.rs: the kinds of packages, and the names that identify them.
use async_chunker.Prelude.Text.{bytes_eq, codes}
use async_chunker.Prelude.{Option, none, some, String, List, [], ◌∷◌, Bytes, if◌then◌else◌}

abbrev pub content_types : Bytes
content_types = codes "[Content_Types].xml"

abbrev pub signature_dir : Bytes
signature_dir = codes "_xmlsignatures/"

pub data OfficeKind : Type 0 where
  word excel powerpoint : OfficeKind

abbrev pub all : List OfficeKind
all = word ∷ excel ∷ powerpoint ∷ []

abbrev pub main_part : OfficeKind → Bytes
main_part word = codes "word/document.xml"
main_part excel = codes "xl/workbook.xml"
main_part powerpoint = codes "ppt/presentation.xml"

-- `find(|kind| kind.main_part() == name)`
unfoldable pub find_part : List OfficeKind → Bytes → Option OfficeKind
unfolding bytes_eq
find_part [] name = none
find_part (kind ∷ kinds) name =
    if bytes_eq (main_part kind) name then some kind else find_part kinds name

unfoldable pub of_main_part : Bytes → Option OfficeKind
unfolding find_part
of_main_part = find_part all

unfoldable pub name : OfficeKind → String
name word = "word"
name excel = "excel"
name powerpoint = "powerpoint"
