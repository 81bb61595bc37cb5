-- ===== src/Office/Ber/Packages.antt =====
-- Which streams the chunker takes.
use mathlib.Core.Path.{fun_ext}
use async_chunker.Chunker.{drive}
use async_chunker.Container.Accepting.{walk, Accepts, drive-Accepts}
use async_chunker.Gear.{Blake3}
use async_chunker.Office.Ber.{
  Walker, start, checked, tapped, consume, closed, check_end, format, expecting, push, finish,
}
use async_chunker.Office.Kind.{OfficeKind}
use async_chunker.Office.Package
use async_chunker.Office.Package.Calls.{observe-is_package}
use async_chunker.Office.Package.Names.{names, is_package}
use async_chunker.Office.Package.{PackageCheck, member, observe, close}
use async_chunker.Prelude.{
  ℕ, ◌≡◌, ◌↔◌, refl, sym, ap, ◌∙◌, inl, inr, true, Option, none, some, List, [], ◌∷◌, ◌++◌, Bytes,
}
use async_chunker.Result.{Result, ok, err, ◌>>=◌, >>=_assoc, Result-cases}
use async_chunker.Zip.Fault.{ZipFault}
use async_chunker.Zip.Numbers as Zip
use async_chunker.Zip.State as Archive
use async_chunker.Zip.State.{Event, local_header, member_data, member_end, central_begun}
use async_chunker.Zip.Walker as Records
use async_chunker.Zip.Walker.Members.{trace, continue, prepend}

-- The calls may be observed in two parts.
observe-append :
    (check : PackageCheck) (xs ys : List Event)
    → observe check (xs ++ ys) ≡ (observe check xs >>= λ next. observe next ys)
unfolding observe
observe-append check [] ys = refl
observe-append check (local_header name method utf8_flag encrypted sizes crc ∷ xs) ys =
    ap (◌>>=◌ (member check name)) (fun_ext (λ next. observe-append next xs ys))
    ∙ sym (>>=_assoc (member check name) (λ next. observe next xs) (λ next. observe next ys))
observe-append check (member_data byte ∷ xs) ys = observe-append check xs ys
observe-append check (member_end sizes crc ∷ xs) ys = observe-append check xs ys
observe-append check (central_begun ∷ xs) ys = observe-append check xs ys

-- The chunker's walker from the archive's walker, and the check behind its calls.
passed : Archive.Walker → Package.W PackageCheck → Option Walker
passed v (ok check) = some (record { archive = v; check = check })
passed v (err fault) = none

both : Zip.W (Archive.Walker × List Event) → PackageCheck → Option Walker
both (ok (v, events)) check = passed v (observe check events)
both (err fault) check = none

onwards : Zip.W (Archive.Walker × List Event) → Package.W PackageCheck → Option Walker
onwards t (ok check) = both t check
onwards t (err fault) = none

both-prepend :
    (events : List Event) (t : Zip.W (Archive.Walker × List Event)) (check : PackageCheck)
    → both (prepend events t) check ≡ onwards t (observe check events)
unfolding both passed onwards
both-prepend events (ok (v, later)) check =
    ap (passed v) (observe-append check events later) ∙ split (observe check events)
  where
    split :
        (r : Package.W PackageCheck)
        → passed v (r >>= λ next. observe next later) ≡ onwards (ok (v, later)) r
    split (ok next) = refl
    split (err fault) = refl
both-prepend events (err fault) check = split (observe check events)
  where
    split : (r : Package.W PackageCheck) → none ≡ onwards (err fault) r
    split (ok next) = refl
    split (err fault) = refl

module _ (blake3 : Blake3) where
  -- One byte, by what the archive's walker makes of it.
  tapped-both :
      (check : PackageCheck) (bs : Bytes)
      → ((w : Walker) → walk (format blake3) w bs ≡ both (trace w.archive bs) w.check)
      → (r : Archive.Walker × Result ZipFault (List Event × Option ℕ))
      → elim ((tapped check r).1) [
        | ok large ↦ walk (format blake3) (tapped check r).0 bs
        | err fault ↦ none
      ]
        ≡ both (continue (λ v events. prepend events (trace v bs)) r) check
  unfolding tapped checked both onwards
  tapped-both check bs ih (v, err fault) = refl
  tapped-both check bs ih (v, ok (events, large)) =
      split (observe check events) ∙ sym (both-prepend events (trace v bs) check)
    where
      split :
          (r : Package.W PackageCheck)
          → let next = checked (record { archive = v; check = check }) large r in
            elim (next.1) [ ok large ↦ walk (format blake3) next.0 bs | err fault ↦ none ]
            ≡ onwards (trace v bs) r
      split (ok c) = ih (record { archive = v; check = c })
      split (err fault) = refl

  walk-both :
      (bs : Bytes) (w : Walker) → walk (format blake3) w bs ≡ both (trace w.archive bs) w.check
  unfolding walk trace consume both passed observe
  walk-both [] w = refl
  walk-both (b ∷ bs) w = tapped-both w.check bs (λ v. walk-both bs v) (Records.consume w.archive b)

closed_lem :
    (check : PackageCheck) (r : Result ZipFault (Unit {0}))
    → (closed check r ≡ ok tt) ↔ ((r ≡ ok tt) × (close check ≡ ok tt))
unfolding closed
closed_lem check (ok tt) = (λ e. (refl, e), λ (e, f). f)
closed_lem check (err fault) = (λ e. cc, λ (e, f). cc)

-- An archive that the walker takes, with the names of a package.
pub record IsPackage (kind : Option OfficeKind) (bytes : Bytes) : Type 0 where
  pub archive : Archive.Walker
  pub events : List Event
  pub traced : trace Records.new bytes ≡ ok (archive, events)
  pub complete : Records.finish archive ≡ ok tt
  pub named : is_package kind (names events) ≡ true

ended :
    (kind : Option OfficeKind) (bytes : Bytes) (t : Zip.W (Archive.Walker × List Event))
    → trace Records.new bytes ≡ t
    → ((w : Walker) × (both t (Package.new kind) ≡ some w) × (check_end w ≡ ok tt))
      ↔ IsPackage kind bytes
unfolding both passed check_end
ended kind bytes (ok (v, events)) e = elim (Result-cases (observe (Package.new kind) events)) [
  | inl (c, taken) ↦ rw taken (
    λ (w, f, g).
        let same : record { archive = v; check = c } ≡ w = cc in
        let parts = (closed_lem c (Records.finish v)).0 (ap check_end same ∙ g) in
        record {
          archive = v;
          events = events;
          traced = e;
          complete = parts.0;
          named = (observe-is_package kind events).0 (c, taken, parts.1);
        },
    λ p.
        let traced = p.traced in
        let same : p.archive ≡ v = cc in
        let calls : p.events ≡ events = cc in
        let named = ap (λ (es : List Event). is_package kind (names es)) (sym calls) ∙ p.named in
        let (d, also, closes) = (observe-is_package kind events).1 named in
        let one : d ≡ c = cc in
        (
          record { archive = v; check = c },
          refl,
          (closed_lem c (Records.finish v)).1
              (ap Records.finish (sym same) ∙ p.complete, ap close (sym one) ∙ closes),
        ),
  )
  | inr (fault, refused) ↦ rw refused (
    λ (w, f, g). absurd cc,
    λ p.
        let traced = p.traced in
        let calls : p.events ≡ events = cc in
        let named = ap (λ (es : List Event). is_package kind (names es)) (sym calls) ∙ p.named in
        let (d, also, closes) = (observe-is_package kind events).1 named in absurd cc,
  )
]
ended kind bytes (err fault) e = (λ (w, f, g). absurd cc, λ p. let q = p.traced in absurd cc)

-- A chunker that expects a kind of package, or any, takes exactly the archives whose members are reported
-- with `[Content_Types].xml` first and, anywhere, the main part of that kind, or of one of the three.
pub ber_packages :
    (blake3 : Blake3) (kind : Option OfficeKind) (bytes : Bytes)
    → ((drive (push blake3) (finish blake3) (expecting blake3 kind) bytes).error ≡ none)
      ↔ IsPackage kind bytes
unfolding Accepts start
ber_packages blake3 kind bytes =
    let taken = drive-Accepts (format blake3) (expecting blake3 kind) bytes refl in
    let walked = walk-both blake3 bytes (start kind) in
    let parts = ended kind bytes (trace Records.new bytes) refl in
    (
      λ e. let (w, f, g) = taken.0 e in parts.0 (w, sym walked ∙ f, g),
      λ p. let (w, f, g) = parts.1 p in taken.1 (w, walked ∙ f, g),
    )
