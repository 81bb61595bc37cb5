-- ===== src/Office/Package/Calls.antt =====
-- The package check over all calls.
use mathlib.Core.Path.{fun_ext}
use async_chunker.Office.Fault.{not_ooxml_package}
use async_chunker.Office.Kind.{
  OfficeKind, word, excel, powerpoint, content_types, main_part, of_main_part,
}
use async_chunker.Office.Package.{
  W, PackageCheck, new, contains, noted, member, required, close, observe,
}
use async_chunker.Office.Package.Names.{
  names, has_main, is_package, of_main_part_lem, contains-add_kind,
}
use async_chunker.Prelude.Text.{bytes_eq, one_of}
use async_chunker.Prelude.{
  ◌≡◌, ◌<◌, not, is_empty, ◌↔◌, refl, sym, ap, ◌∙◌, Bool, true, false, ◌||◌, Option, none, some,
  List, [], ◌∷◌, arith, ◌==◌, Bytes, inl, inr, Bool-cases,
}
use async_chunker.Result.{ok, err, ◌>>=◌}
use async_chunker.Zip.State.{Event, local_header, member_data, member_end, central_begun}

-- Every name is looked at.
members : PackageCheck → List Bytes → W PackageCheck
members check [] = ok check
members check (name ∷ names) = do next ← member check name; members next names

observe-members :
    (check : PackageCheck) (events : List Event)
    → observe check events ≡ members check (names events)
unfolding observe members
observe-members check [] = refl
observe-members check (local_header name method utf8_flag encrypted sizes crc ∷ events) =
    ap (◌>>=◌ (member check name)) (fun_ext (λ next. observe-members next events))
observe-members check (member_data byte ∷ events) = observe-members check events
observe-members check (member_end sizes crc ∷ events) = observe-members check events
observe-members check (central_begun ∷ events) = observe-members check events

-- Behind the first name none is refused.
all_noted : PackageCheck → List Bytes → PackageCheck
all_noted check [] = check
all_noted check (name ∷ names) = all_noted (noted check name) names

members-noted :
    (check : PackageCheck) (ns : List Bytes)
    → 0 < check.members_seen
    → members check ns ≡ ok (all_noted check ns)
unfolding members member all_noted
members-noted check [] h = refl
members-noted check (n ∷ ns) h =
    let later : check.members_seen == 0 ≡ false = ground arith in
    rw later (members-noted (noted check n) ns (omega arith))

-- A kind is among the main parts if it was before, or if one of the names is its main part.
all_noted-contains :
    (check : PackageCheck) (ns : List Bytes) (k : OfficeKind)
    → contains (all_noted check ns).main_parts k
      ≡ (contains check.main_parts k || one_of (main_part k) ns)
unfolding all_noted one_of
all_noted-contains check [] k = ground arith
all_noted-contains check (n ∷ ns) k = ground (
  arith,
  all_noted-contains (noted check n) ns k,
  contains-add_kind (of_main_part n) check.main_parts k,
  of_main_part_lem n k,
)

all_noted-kept :
    (check : PackageCheck) (ns : List Bytes)
    → ((all_noted check ns).first_ok ≡ check.first_ok)
      × ((all_noted check ns).expected ≡ check.expected)
unfolding all_noted
all_noted-kept check [] = (refl, refl)
all_noted-kept check (n ∷ ns) = all_noted-kept (noted check n) ns

is_empty_lem :
    (kinds : List OfficeKind)
    → not (is_empty kinds)
      ≡ (contains kinds word || contains kinds excel || contains kinds powerpoint)
is_empty_lem [] = refl
is_empty_lem (k ∷ kinds) = ground arith

-- Which kinds are wanted among the main parts.
wanted : Option OfficeKind → (OfficeKind → Bool) → Bool
wanted (some kind) holds = holds kind
wanted none holds = holds word || holds excel || holds powerpoint

required-wanted :
    (expected : Option OfficeKind) (kinds : List OfficeKind)
    → (required expected kinds ≡ ok tt) ↔ (wanted expected (contains kinds) ≡ true)
unfolding wanted
required-wanted none kinds = ground (arith, is_empty_lem kinds)
required-wanted (some kind) kinds = ground arith

wanted-has_main :
    (kind : Option OfficeKind) (ns : List Bytes)
    → wanted kind (λ k. one_of (main_part k) ns) ≡ has_main kind ns
unfolding wanted has_main
wanted-has_main none ns = refl
wanted-has_main (some kind) ns = refl

-- A check whose first name was in order.
began : Option OfficeKind → PackageCheck
began kind = record (new kind) { first_ok = true }

close-wanted :
    (check : PackageCheck)
    → check.first_ok ≡ true
    → (close check ≡ ok tt) ↔ (wanted check.expected (contains check.main_parts) ≡ true)
unfolding close
close-wanted check h = rw h (required-wanted check.expected check.main_parts)

all_noted-closes :
    (kind : Option OfficeKind) (ns : List Bytes)
    → (close (all_noted (began kind) ns) ≡ ok tt) ↔ (has_main kind ns ≡ true)
unfolding began new
all_noted-closes kind ns =
    let last = all_noted (began kind) ns in
    let kept = all_noted-kept (began kind) ns in
    let same : wanted last.expected (contains last.main_parts) ≡ has_main kind ns =
      ap (λ (e : Option OfficeKind). wanted e (contains last.main_parts)) kept.1
      ∙ ap (wanted kind) (fun_ext (λ k. all_noted-contains (began kind) ns k))
      ∙ wanted-has_main kind ns in
    let closes = close-wanted last kept.0 in (λ e. sym same ∙ closes.0 e, λ e. closes.1 (same ∙ e))

members-first :
    (kind : Option OfficeKind) (n : Bytes) (ns : List Bytes)
    → bytes_eq n content_types ≡ true
    → members (new kind) (n ∷ ns) ≡ ok (all_noted (began kind) (n ∷ ns))
unfolding members member began new all_noted
members-first kind n ns e =
    rw e (members-noted (noted (began kind) n) ns (unfold began new in omega arith))

members-other :
    (kind : Option OfficeKind) (n : Bytes) (ns : List Bytes)
    → bytes_eq n content_types ≡ false
    → members (new kind) (n ∷ ns) ≡ err not_ooxml_package
unfolding members member new
members-other kind n ns e = rw e

members-none :
    (kind : Option OfficeKind) (c : PackageCheck)
    → members (new kind) [] ≡ ok c
    → close c ≡ ok tt
    → false ≡ true
unfolding members new close
members-none kind c e f =
    let same : new kind ≡ c = cc in let closed : close (new kind) ≡ ok tt = ap close same ∙ f in cc

members-is_package :
    (kind : Option OfficeKind) (ns : List Bytes)
    → ((c : PackageCheck) × (members (new kind) ns ≡ ok c) × (close c ≡ ok tt))
      ↔ (is_package kind ns ≡ true)
unfolding is_package
members-is_package kind [] = (λ (c, e, f). members-none kind c e f, λ e. cc)
members-is_package kind (n ∷ ns) = elim (Bool-cases (bytes_eq n content_types)) [
  | inl first ↦
      let last = all_noted (began kind) (n ∷ ns) in
      let found = members-first kind n ns first in
      let closes = all_noted-closes kind (n ∷ ns) in
      rw first (
        λ (c, e, f). let same : c ≡ last = cc in closes.0 (ap close (sym same) ∙ f),
        λ e. (last, found, closes.1 e),
      )
  | inr other ↦
      let refused = members-other kind n ns other in
      rw other (λ (c, e, f). absurd cc, λ e. absurd cc)
]

-- A package by its calls: the check takes them all and can be closed, exactly if the names make a package.
pub observe-is_package :
    (kind : Option OfficeKind) (events : List Event)
    → ((c : PackageCheck) × (observe (new kind) events ≡ ok c) × (close c ≡ ok tt))
      ↔ (is_package kind (names events) ≡ true)
observe-is_package kind events =
    rw (observe-members (new kind) events) (members-is_package kind (names events))
