-- ===== src/MediaType/Canonical.antt =====
-- Parsing the canonical rendering of a media type.
use async_chunker.Constants.{max_media_type_parameters}
use async_chunker.Errors.{invalid_top_level, invalid_subtype}
use async_chunker.MediaType.Cursor.{is_restricted_name_byte, is_space, all_bytes}
use async_chunker.MediaType.Display.{parameters_text, display}
use async_chunker.MediaType.Essence.{
  Solid, Solid-append, Solid-all, parameters_text-Solid, trim_start-Stops, without, split_at-none,
  split_at-append, all_bytes-append, Name-without, separators, restricted_no_space, Name-there,
  Name-Stops, check_restricted_name-Name,
}
use async_chunker.MediaType.Normal.{Name, Written, Unseen, Ordered, Normal}
use async_chunker.MediaType.Parse.{split_at, parse_optional, parse_parts, parse_split, parse}
use async_chunker.MediaType.RoundTrip.{unseparated, parse_parameters-text}
use async_chunker.MediaType.Tokens.{Stops}
use async_chunker.MediaType.{MediaType, Parameter, lower, to_ascii_lowercase}
use async_chunker.Prelude.{
  ℕ, ◌+◌, ◌-◌, ◌≤◌, ◌≡◌, refl, ap, ◌∙◌, true, Option, none, some, List, [], ◌∷◌, ◌++◌, Bytes, All,
  length, append_assoc, append-nil,
}
use async_chunker.Result.{ok}

-- The type and the subtype with the slash.
abbrev whole : Bytes → Bytes → Bytes
whole top sub = top ++ b'/' ∷ sub

lowercase-append :
    (xs ys : Bytes) → to_ascii_lowercase (xs ++ ys) ≡ to_ascii_lowercase xs ++ to_ascii_lowercase ys
lowercase-append [] ys = refl
lowercase-append (x ∷ xs) ys = ap (λ (bs : Bytes). lower x ∷ bs) (lowercase-append xs ys)

whole-lowered :
    (top sub : Bytes) → Name top → Name sub → to_ascii_lowercase (whole top sub) ≡ whole top sub
whole-lowered top sub t s = lowercase-append top (b'/' ∷ sub) ∙ rw (t.lowered, s.lowered) refl

parse_parts-whole :
    (top sub : Bytes) (parameters : Option (Bytes × ℕ)) (ps : List Parameter) (base : ℕ)
    → Name top
    → Name sub
    → parse_optional parameters ≡ ok ps
    → parse_parts (whole top sub) parameters base
      ≡ ok (record { essence = whole top sub; slash = length top; parameters = ps })
unfolding parse_parts
parse_parts-whole top sub parameters ps base t s e =
    let (slash, _, _, _) = separators in
    let split = split_at-append b'/' top sub (Name-without b'/' top slash t) in
    let first = check_restricted_name-Name top base "type" invalid_top_level t in
    let second =
      check_restricted_name-Name sub (base + length top + 1) "subtype" invalid_subtype s in
    rw (split, first, second, e, whole-lowered top sub t s) refl

whole-Solid : (top sub : Bytes) → Name sub → Solid (whole top sub)
whole-Solid top sub s = Solid-append top (b'/' ∷ sub) (
    Solid-append (b'/' ∷ []) sub
      (Solid-all is_restricted_name_byte sub restricted_no_space s.restricted (Name-there sub s)))

no_semicolon :
    (top sub : Bytes) → Name top → Name sub → all_bytes (without b';') (whole top sub) ≡ true
no_semicolon top sub t s =
    let (_, semicolon, _, _) = separators in
    all_bytes-append (without b';') top (b'/' ∷ sub) (Name-without b';' top semicolon t)
      (Name-without b';' sub semicolon s)

-- With nothing to trim off, the text is split at its first semicolon.
parse-trimmed :
    (text : Bytes)
    → Stops is_space text
    → Solid text
    → (base : ℕ) × (parse text ≡ parse_split text (split_at b';' text) base)
unfolding parse
parse-trimmed text s (kept, there) =
    let started = trim_start-Stops text s in
    (length text - length text, rw (started, kept, there) refl)

parse-text :
    (top sub : Bytes) (ps : List Parameter)
    → Name top
    → Name sub
    → All Written ps
    → Unseen [] ps
    → Ordered ps
    → length ps ≤ max_media_type_parameters
    → parse (whole top sub ++ parameters_text ps)
      ≡ ok (record { essence = whole top sub; slash = length top; parameters = ps })
unfolding parameters_text parse_split parse_optional
parse-text top sub [] t s w u o h =
    let text = whole top sub in
    let solid = whole-Solid top sub s in
    let (base, parsed) = parse-trimmed text (Name-Stops top (b'/' ∷ sub) t) solid in
    rw (append-nil text, parsed, split_at-none b';' text (no_semicolon top sub t s), solid.0)
      (parse_parts-whole top sub none [] base t s refl)
parse-text top sub (p ∷ ps) t s w u o h =
    let essence = whole top sub in
    let solid = whole-Solid top sub s in
    let text = essence ++ parameters_text (p ∷ ps) in
    let starts : Stops is_space text =
      rw (append_assoc top (b'/' ∷ sub) (parameters_text (p ∷ ps)))
        (Name-Stops top (b'/' ∷ (sub ++ parameters_text (p ∷ ps))) t) in
    let (base, parsed) =
      parse-trimmed text starts
        (Solid-append essence (parameters_text (p ∷ ps)) (parameters_text-Solid p ps)) in
    let split = split_at-append b';' essence (unseparated p ps) (no_semicolon top sub t s) in
    let after = base + length essence + 1 in
    rw (parsed, split, solid.0)
      (parse_parts-whole top sub (some (unseparated p ps, after)) (p ∷ ps) base t s
        (parse_parameters-text p ps after w u o h))

-- A media type in normal form is parsed back from its rendering: the type and subtype are restricted names in
-- lower case of at most 127 bytes each, and the parameters at most sixteen, with tokens in lower case as names,
-- distinct and in order, and any values, quoted and escaped where they are no tokens.
pub parse-display : (m : MediaType) → Normal m → parse (display m) ≡ ok m
unfolding display
parse-display m n =
    ap (λ (e : Bytes). parse (e ++ parameters_text m.parameters)) n.essence
    ∙ parse-text n.top n.sub m.parameters n.top_name n.sub_name n.written n.distinct n.ordered n.few
    ∙ rw (n.essence, n.slash) refl
