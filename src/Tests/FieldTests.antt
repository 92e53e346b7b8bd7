-- ===== src/Tests/FieldTests.antt =====
-- Fields of multipart bodies and the decoders for them.
use foxhttp.Prelude.{◌≡◌, refl, some, [], ◌∷◌, ◌++◌, arith, codes}
use foxhttp.Parser.Multipart.{quoted_value}
use foxhttp.Parser.Field.{extract_boundary, quoted_printable_decode, parse_field}
use foxhttp.Parser.Field.Disposition.{IsNamed, written_field}
use foxhttp.Parser.Field.Laws.{spell_field, parse_field-spell_field}

escape_read : quoted_printable_decode (codes "=3Da") ≡ codes "=a"
unfolding quoted_printable_decode
escape_read = refl

-- A soft line break stays in the text.
soft_break_kept :
    quoted_printable_decode (codes "a=" ++ (13 ∷ 10 ∷ codes "b"))
    ≡ codes "a=" ++ (13 ∷ 10 ∷ codes "b")
unfolding quoted_printable_decode
soft_break_kept = refl

quoted_boundary :
    extract_boundary
      (codes "multipart/form-data; boundary=" ++ (34 ∷ codes "xyz" ++ 34 ∷ codes "; a"))
    ≡ codes "xyz"
unfolding extract_boundary
quoted_boundary = refl

-- A quoted boundary with a blank is cut there and keeps its quote.
blank_in_boundary :
    extract_boundary (codes "boundary=" ++ (34 ∷ codes "x y" ++ 34 ∷ [])) ≡ 34 ∷ codes "x"
unfolding extract_boundary
blank_in_boundary = refl

avatar-IsNamed : IsNamed (codes "avatar") (some (codes "a.png"))
avatar-IsNamed = record {
  name_quote = omega arith;
  name_line = (omega arith, omega arith);
  name_equals = omega arith;
  filename_clean = (omega arith, omega arith, omega arith);
}

parse_field-spell_field_example :
    parse_field (spell_field (codes "avatar") (some (codes "a.png")) (codes "PNG"))
    ≡ some (written_field (codes "avatar") (some (codes "a.png")) (codes "PNG"))
parse_field-spell_field_example =
    parse_field-spell_field (codes "avatar") (some (codes "a.png")) (codes "PNG") avatar-IsNamed
      (omega arith)

-- A file name that stands in front of the name is taken for it.
filename_first :
    quoted_value
      (codes "name=" ++ 34 ∷ [])
      (codes "filename=" ++ (34 ∷ codes "f" ++ 34 ∷ codes "; name=" ++ (34 ∷ codes "n" ++ 34 ∷ [])))
    ≡ some (codes "f")
unfolding quoted_value
filename_first = refl
