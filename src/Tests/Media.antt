-- ===== src/Tests/Media.antt =====
-- Media types parsed and rendered.
use async_chunker.Errors.{duplicate_parameter}
use async_chunker.MediaType.Canonical.{parse-display}
use async_chunker.MediaType.Cursor.{
  Cursor, token, value, value_in, expect, expect_in, quoted, skip_whitespace, is_token,
  is_restricted_name_byte,
}
use async_chunker.MediaType.Display.{display}
use async_chunker.MediaType.Fuel.{Ends, read_parameters-Ends}
use async_chunker.MediaType.Normal.{Name, Normal}
use async_chunker.MediaType.Parse.{
  parse, parse_split, parse_parts, parse_optional, parse_parameters, read_parameters,
  read_parameter, add, seen, check_restricted_name,
}
use async_chunker.MediaType.{MediaType}
use async_chunker.Prelude.Text.{codes, one_of}
use async_chunker.Profile.{structured_text_v1}
use async_chunker.Registry.Lookup.{specialist_iff}
use async_chunker.Registry.{specialist, select, essences, v1, v2}
use async_chunker.Prelude.{◌≡◌, ◌↔◌, refl, true, some, [], ◌∷◌, arith, Bytes}
use async_chunker.Result.{ok, err}

-- Two parameters, one of which needs quotes.
abbrev labelled : MediaType
labelled = record {
  essence = codes "text/plain";
  slash = 4;
  parameters =
      record { name = codes "charset"; value = codes "utf-8" }
      ∷ record { name = codes "title"; value = codes "a b" }
      ∷ [];
}

abbrev spelled : Bytes
spelled = codes " Text/Plain ; title=\"a\\ b\"; Charset=utf-8"

normalizes : parse spelled ≡ ok labelled
unfolding parse parse_split parse_parts parse_optional parse_parameters read_parameters
    read_parameter add seen check_restricted_name token value value_in expect expect_in quoted
    skip_whitespace
normalizes = refl

rejects_duplicates : parse (codes "a/b;c=d;C=e") ≡ err (duplicate_parameter (codes "c"))
unfolding parse parse_split parse_parts parse_optional parse_parameters read_parameters
    read_parameter add seen check_restricted_name token value value_in expect expect_in quoted
    skip_whitespace
rejects_duplicates = refl

renders : display labelled ≡ codes "text/plain;charset=utf-8;title=\"a b\""
unfolding display
renders = refl

text-Name : Name (codes "text")
unfolding is_restricted_name_byte
text-Name = record { first = refl; restricted = refl; size = omega arith; lowered = refl }

plain-Name : Name (codes "plain")
unfolding is_restricted_name_byte
plain-Name = record { first = refl; restricted = refl; size = omega arith; lowered = refl }

labelled-Normal : Normal labelled
unfolding is_token seen
labelled-Normal = record {
  top = codes "text";
  sub = codes "plain";
  essence = refl;
  slash = refl;
  top_name = text-Name;
  sub_name = plain-Name;
  written =
      (record { token = refl; lowered = refl }, (record { token = refl; lowered = refl }, tt));
  distinct = (refl, (refl, tt));
  ordered = (refl, tt);
  few = omega arith;
}

parse-display_example : parse (display labelled) ≡ ok labelled
parse-display_example = parse-display labelled labelled-Normal

abbrev at_text : Cursor
at_text = record { rest = codes "a=b"; offset = 0 }

read_parameters-Ends_example : Ends at_text [] (read_parameters 4 at_text [])
read_parameters-Ends_example = read_parameters-Ends 4 at_text [] (omega arith)

specialist_iff_example :
    ((specialist v1 labelled ≡ some structured_text_v1)
      ↔ (one_of labelled.essence (essences v1 structured_text_v1) ≡ true))
    × ((specialist v2 labelled ≡ some structured_text_v1)
        ↔ (one_of labelled.essence (essences v2 structured_text_v1) ≡ true))
specialist_iff_example = specialist_iff labelled structured_text_v1

selects_text : select v2 labelled ≡ structured_text_v1
unfolding select one_of
selects_text = refl
