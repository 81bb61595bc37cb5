-- ===== src/Office/Package/Names.antt =====
-- The package check against the list of all names.
use async_chunker.Office.Kind.{
  OfficeKind, word, excel, powerpoint, content_types, main_part, of_main_part,
}
use async_chunker.Office.Package.{new, same_kind, contains, add_kind}
use async_chunker.Prelude.Text.{bytes_eq, bytes_eq_iff, one_of}
use async_chunker.Prelude.{
  ◌≡◌, refl, sym, ap, ◌∙◌, Bool, true, false, ◌&&◌, ◌||◌, Option, none, some, List, [], ◌∷◌, ◌++◌,
  arith, Bytes, inl, inr, Bool-cases,
}
use async_chunker.Zip.State.{Event, local_header, member_data, member_end, central_begun}

-- The names of the members, in order.
abbrev pub names : List Event → List Bytes
names [] = []
names (local_header name method utf8_flag encrypted sizes crc ∷ events) = name ∷ names events
names (member_data byte ∷ events) = names events
names (member_end sizes crc ∷ events) = names events
names (central_begun ∷ events) = names events

pub names-append : (xs ys : List Event) → names (xs ++ ys) ≡ names xs ++ names ys
names-append [] ys = refl
names-append (local_header name method utf8_flag encrypted sizes crc ∷ xs) ys =
    ap (◌∷◌ name) (names-append xs ys)
names-append (member_data byte ∷ xs) ys = names-append xs ys
names-append (member_end sizes crc ∷ xs) ys = names-append xs ys
names-append (central_begun ∷ xs) ys = names-append xs ys

-- One of the names is a main part: of the kind, if one is expected.
unfoldable pub has_main : Option OfficeKind → List Bytes → Bool
unfolding one_of
has_main (some kind) names = one_of (main_part kind) names
has_main none names =
    one_of (main_part word) names
    || one_of (main_part excel) names
    || one_of (main_part powerpoint) names

-- An Office package by its names: the content types come first, and there is a main part.
unfoldable pub is_package : Option OfficeKind → List Bytes → Bool
unfolding has_main bytes_eq
is_package kind [] = false
is_package kind (first ∷ rest) = bytes_eq first content_types && has_main kind (first ∷ rest)

-- The kinds, and one more.
contains-add :
    (kinds : List OfficeKind) (k j : OfficeKind)
    → contains (kinds ++ k ∷ []) j ≡ (contains kinds j || same_kind k j)
contains-add [] k j = ground arith
contains-add (i ∷ kinds) k j = ground (arith, contains-add kinds k j)

-- A name is the main part of one kind at most.
parts_differ : (k j : OfficeKind) → bytes_eq (main_part j) (main_part k) ≡ same_kind k j
unfolding bytes_eq
parts_differ word word = refl
parts_differ word excel = refl
parts_differ word powerpoint = refl
parts_differ excel word = refl
parts_differ excel excel = refl
parts_differ excel powerpoint = refl
parts_differ powerpoint word = refl
parts_differ powerpoint excel = refl
parts_differ powerpoint powerpoint = refl

one_kind :
    (name : Bytes) (k j : OfficeKind)
    → bytes_eq (main_part k) name ≡ true
    → bytes_eq (main_part j) name ≡ same_kind k j
one_kind name k j e =
    ap (bytes_eq (main_part j)) (sym ((bytes_eq_iff (main_part k) name).0 e)) ∙ parts_differ k j

-- What a name says of a kind.
unfoldable pub names_kind : Option OfficeKind → OfficeKind → Bool
names_kind none k = false
names_kind (some j) k = same_kind j k

pub of_main_part_lem :
    (name : Bytes) (k : OfficeKind) → names_kind (of_main_part name) k ≡ bytes_eq (main_part k) name
unfolding of_main_part names_kind
of_main_part_lem name k = elim (Bool-cases (bytes_eq (main_part word) name)) [
  | inl a ↦ rw a (sym (one_kind name word k a))
  | inr a ↦ rw a (elim (Bool-cases (bytes_eq (main_part excel) name)) [
    | inl b ↦ rw b (sym (one_kind name excel k b))
    | inr b ↦ rw b (elim (Bool-cases (bytes_eq (main_part powerpoint) name)) [
      | inl c ↦ rw c (sym (one_kind name powerpoint k c))
      | inr c ↦ rw c (sym (neither k a b c))
    ])
  ])
]
  where
    neither :
        (k : OfficeKind)
        → bytes_eq (main_part word) name ≡ false
        → bytes_eq (main_part excel) name ≡ false
        → bytes_eq (main_part powerpoint) name ≡ false
        → bytes_eq (main_part k) name ≡ false
    neither word a b c = a
    neither excel a b c = b
    neither powerpoint a b c = c

same_kind_eq : (k j : OfficeKind) → same_kind k j ≡ true → k ≡ j
same_kind_eq k j e = ground arith

pub contains-add_kind :
    (o : Option OfficeKind) (kinds : List OfficeKind) (k : OfficeKind)
    → contains (add_kind o kinds) k ≡ (contains kinds k || names_kind o k)
unfolding names_kind
contains-add_kind none kinds k = ground arith
contains-add_kind (some j) kinds k = elim (Bool-cases (contains kinds j)) [
  | inl there ↦ rw there (again (same_kind j k) refl there)
  | inr new ↦ rw new (contains-add kinds j k)
]
  where
    again :
        (b : Bool)
        → same_kind j k ≡ b
        → contains kinds j ≡ true
        → contains kinds k ≡ (contains kinds k || same_kind j k)
    again true e h = let same = ap (contains kinds) (sym (same_kind_eq j k e)) ∙ h in ground arith
    again false e h = ground arith
