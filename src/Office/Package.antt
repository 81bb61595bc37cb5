-- ===== src/Office/Package.antt =====
-- `PackageCheck` of src/chunker/office/ber.rs: what the names of its members make of an archive.
pub mod Names
pub mod Calls
use async_chunker.Office.Fault.{
  OfficeFault, not_ooxml_package, missing_main_part, unrecognized_package,
}
use async_chunker.Office.Kind.{
  OfficeKind, word, excel, powerpoint, content_types, signature_dir, of_main_part,
}
use async_chunker.Prelude.Text.{bytes_eq, starts_with}
use async_chunker.Prelude.{
  ℕ, ◌+◌, Bool, true, false, not, ◌&&◌, ◌||◌, Option, none, some, List, [], ◌∷◌, ◌++◌, ◌==◌,
  if◌then◌else◌, Bytes, is_empty,
}
use async_chunker.Result.{Result, ok, err, ◌>>=◌}
use async_chunker.Zip.State.{Event, local_header, member_data, member_end, central_begun}

abbrev pub W : Type 0 → Type 0
W = Result OfficeFault

pub record PackageCheck : Type 0 where
  pub expected : Option OfficeKind
  pub members_seen : ℕ
  pub first_ok : Bool
  pub main_parts : List OfficeKind
  pub signed : Bool

unfoldable pub new : Option OfficeKind → PackageCheck
new expected = record {
  expected = expected;
  members_seen = 0;
  first_ok = false;
  main_parts = [];
  signed = false;
}

abbrev pub same_kind : OfficeKind → OfficeKind → Bool
same_kind word word = true
same_kind excel excel = true
same_kind powerpoint powerpoint = true
same_kind _ _ = false

-- `contains`
abbrev pub contains : List OfficeKind → OfficeKind → Bool
contains [] kind = false
contains (k ∷ ks) kind = same_kind k kind || contains ks kind

abbrev pub add_kind : Option OfficeKind → List OfficeKind → List OfficeKind
add_kind none kinds = kinds
add_kind (some kind) kinds = if contains kinds kind then kinds else kinds ++ kind ∷ []

-- The part of `member` behind the check of the first name.
abbrev pub noted : PackageCheck → Bytes → PackageCheck
noted check name = record check {
  members_seen = check.members_seen + 1;
  main_parts = add_kind (of_main_part name) check.main_parts;
  signed = if starts_with name signature_dir then true else check.signed;
}

unfoldable pub member : PackageCheck → Bytes → W PackageCheck
unfolding bytes_eq of_main_part starts_with
member check name =
    if check.members_seen == 0
    then (if bytes_eq name content_types
        then ok (noted (record check { first_ok = true }) name)
        else err not_ooxml_package)
    else ok (noted check name)

unfoldable pub is_signed : PackageCheck → Bool
is_signed check = check.signed

abbrev pub required : Option OfficeKind → List OfficeKind → W (Unit {0})
required (some kind) kinds = if contains kinds kind then ok tt else err missing_main_part
required none kinds = if is_empty kinds then err unrecognized_package else ok tt

unfoldable pub close : PackageCheck → W (Unit {0})
close check =
    if check.first_ok then required check.expected check.main_parts else err not_ooxml_package

-- `BerEvents`, over the calls of one step: after the first fault no name is looked at.
unfoldable pub observe : PackageCheck → List Event → W PackageCheck
unfolding member
observe check [] = ok check
observe check (local_header name method utf8_flag encrypted sizes crc ∷ events) = do
  next ← member check name
  observe next events
observe check (member_data byte ∷ events) = observe check events
observe check (member_end sizes crc ∷ events) = observe check events
observe check (central_begun ∷ events) = observe check events
