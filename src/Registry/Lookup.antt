-- ===== src/Registry/Lookup.antt =====
-- Looking a media type up, against the listing of a profile's media types.
use mathlib.Core.Path.{subst}
use async_chunker.MediaType.{MediaType}
use async_chunker.Prelude.Text.{bytes_eq, bytes_eq_iff, one_of}
use async_chunker.Prelude.{
  ◌≡◌, ◌↔◌, refl, sym, ap, ◌∙◌, Bool, true, false, not, ◌&&◌, ◌||◌, Option, some, List, [], ◌∷◌,
  ◌++◌, arith, if◌then◌else◌, Bytes, Bool-cases, inl, inr, ==_iff,
}
use async_chunker.Profile.{ChunkingProfile, id, from_id, from_id_iff}
use async_chunker.Registry.{
  Family, v1, v2, find_family, specialist, same_profile, essences_in, essences,
}

-- None of the first is among the second.
abbrev apart : List Bytes → List Bytes → Bool
apart [] ys = true
apart (x ∷ xs) ys = not (one_of x ys) && apart xs ys

abbrev listed : List Family → List Bytes
listed [] = []
listed (f ∷ fs) = f.essences ++ listed fs

-- No family lists what a later one lists.
abbrev disjoint : List Family → Bool
disjoint [] = true
disjoint (f ∷ fs) = apart f.essences (listed fs) && disjoint fs

one_of-append :
    (x : Bytes) (xs ys : List Bytes) → one_of x (xs ++ ys) ≡ (one_of x xs || one_of x ys)
unfolding one_of
one_of-append x [] ys = refl
one_of-append x (z ∷ xs) ys =
    rw (one_of-append x xs ys) (assoc (bytes_eq x z) (one_of x xs) (one_of x ys))
  where
    assoc : (a b c : Bool) → (a || (b || c)) ≡ ((a || b) || c)
    assoc a b c = ground arith

apart-out :
    (x : Bytes) (xs ys : List Bytes) → apart xs ys ≡ true → one_of x xs ≡ true → one_of x ys ≡ false
unfolding one_of
apart-out x [] ys a h = ground arith
apart-out x (z ∷ xs) ys a h = elim (Bool-cases (bytes_eq x z)) [
  | inl same ↦
      let e : x ≡ z = (bytes_eq_iff x z).0 same in
      let out : one_of z ys ≡ false = ground arith in
      subst (λ (t : Bytes). one_of t ys ≡ false) (sym e) out
  | inr other ↦ apart-out x xs ys (ground arith) (ground arith)
]

essences-step :
    (x : Bytes) (p : ChunkingProfile) (f : Family) (fs : List Family)
    → one_of x (essences_in p (f ∷ fs))
      ≡ ((same_profile f.profile p && one_of x f.essences) || one_of x (essences_in p fs))
unfolding essences_in
essences-step x p f fs = elim (Bool-cases (same_profile f.profile p)) [
  | inl same ↦ rw same (one_of-append x f.essences (essences_in p fs))
  | inr other ↦ rw other refl
]

implied : (a b c d : Bool) → ((a && b) || c) ≡ true → (c ≡ true → d ≡ true) → (b || d) ≡ true
implied a b c d h k = ground arith

essences-listed :
    (x : Bytes) (p : ChunkingProfile) (fs : List Family)
    → one_of x (essences_in p fs) ≡ true
    → one_of x (listed fs) ≡ true
unfolding essences_in one_of
essences-listed x p [] h = h
essences-listed x p (f ∷ fs) h =
    one_of-append x f.essences (listed fs)
    ∙ implied (same_profile f.profile p) (one_of x f.essences) (one_of x (essences_in p fs))
        (one_of x (listed fs)) (sym (essences-step x p f fs) ∙ h) (essences-listed x p fs)

same-profile : (p q : ChunkingProfile) → same_profile p q ≡ true → p ≡ q
same-profile p q h =
    let equal : id p ≡ id q = (==_iff (id p) (id q)).0 h in
    let first : from_id (id p) ≡ some q = (from_id_iff q (id p)).1 equal in
    let second : from_id (id p) ≡ some p = (from_id_iff p (id p)).1 refl in ground arith

profile-same : (p q : ChunkingProfile) → p ≡ q → same_profile p q ≡ true
profile-same p q e = (==_iff (id p) (id q)).1 (ap id e)

-- Found in a family, or behind it.
found_here :
    (b : Bool) (p q : ChunkingProfile) (o : Option ChunkingProfile)
    → b ≡ true
    → (if b then some p else o) ≡ some q
    → p ≡ q
found_here b p q o h e = ground arith

found_behind :
    (b : Bool) (p q : ChunkingProfile) (o : Option ChunkingProfile)
    → b ≡ false
    → (if b then some p else o) ≡ some q
    → o ≡ some q
found_behind b p q o h e = ground arith

clash : (b : Bool) → b ≡ true → b ≡ false → ⊥
clash b h k = ground arith

only_here : (s b c : Bool) → ((s && b) || c) ≡ true → b ≡ true → (c ≡ true → ⊥) → s ≡ true
only_here s b c h k n = ground arith

only_behind : (s b c : Bool) → ((s && b) || c) ≡ true → b ≡ false → c ≡ true
only_behind s b c h k = ground arith

behind : (s c : Bool) → c ≡ true → ((s && false) || c) ≡ true
behind s c h = ground arith

lookup_iff :
    (x : Bytes) (p : ChunkingProfile) (fs : List Family)
    → disjoint fs ≡ true
    → (find_family x fs ≡ some p) ↔ (one_of x (essences_in p fs) ≡ true)
unfolding find_family essences_in one_of
lookup_iff x p [] d = ground arith
lookup_iff x p (f ∷ fs) d =
    let step = essences-step x p f fs in
    let (find, list) = lookup_iff x p fs (ground arith) in
    elim (Bool-cases (one_of x f.essences)) [
      | inl here ↦
          let out = apart-out x f.essences (listed fs) (ground arith) here in
          (
            λ e.
                let same =
                  profile-same f.profile p
                    (found_here (one_of x f.essences) f.profile p (find_family x fs) here e) in
                step ∙ rw (same, here) refl,
            λ e. rw here (
                ap some (
                  same-profile f.profile p (
                    only_here (same_profile f.profile p) (one_of x f.essences)
                      (one_of x (essences_in p fs)) (sym step ∙ e) here
                      (λ c. clash (one_of x (listed fs)) (essences-listed x p fs c) out)))),
          )
      | inr away ↦ (
        λ e.
            step
            ∙ rw away (
                behind (same_profile f.profile p) (one_of x (essences_in p fs)) (
                  find (found_behind (one_of x f.essences) f.profile p (find_family x fs) away e))),
        λ e. rw away (
            list (
              only_behind (same_profile f.profile p) (one_of x f.essences)
                (one_of x (essences_in p fs)) (sym step ∙ e) away)),
      )
    ]

-- In both versions of the registry, the specialist for a media type is a profile exactly when the media type's
-- essence is among those listed for that profile.
pub specialist_iff :
    (m : MediaType) (p : ChunkingProfile)
    → ((specialist v1 m ≡ some p) ↔ (one_of m.essence (essences v1 p) ≡ true))
      × ((specialist v2 m ≡ some p) ↔ (one_of m.essence (essences v2 p) ≡ true))
unfolding specialist essences one_of
specialist_iff m p =
    (lookup_iff m.essence p v1.families refl, lookup_iff m.essence p v2.families refl)
