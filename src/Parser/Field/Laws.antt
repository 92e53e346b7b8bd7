-- ===== src/Parser/Field/Laws.antt =====
-- What `parse_field` reads of a field as browsers write it.
use foxhttp.Prelude.{
  ℕ, ◌+◌, ◌^◌, ◌<◌, ◌≡◌, refl, ap, ◌∙◌, Option, some, [], ◌∷◌, ◌++◌, arith, length, take, drop,
  length-append, take-length-append, drop-length-append, drop-add, Bytes, codes, Lacks,
  find_text-front,
}
use foxhttp.Parser.Multipart.{find_header_end, header_length}
use foxhttp.Parser.Field.{parse_headers, read_headers, store_content, parse_field}
use foxhttp.Parser.Field.Disposition.{
  parse_headers-disposition, spell_disposition, IsNamed, written_field, named_by,
  read_headers-disposition, disposition_lines, filename_lines, before_quote, ends_quoted,
}

blank_line_found :
    (head content : Bytes)
    → Lacks 13 head
    → find_header_end (head ++ ((13 ∷ 10 ∷ 13 ∷ 10 ∷ []) ++ content)) ≡ some (length head + 4)
unfolding find_header_end
blank_line_found head content h =
    rw (find_header_end, find_text-front 13 (10 ∷ 13 ∷ 10 ∷ []) head content h) refl

header_length-add : (n : ℕ) → n < 2 ^ 64 → header_length (n + 4) ≡ n
header_length-add n h = omega (arith, h)

parse_field-at :
    (text head content : Bytes) (k : ℕ)
    → find_header_end text ≡ some k
    → take (header_length k) text ≡ head
    → drop k text ≡ content
    → parse_field text ≡ some (store_content content (read_headers (parse_headers head)))
unfolding parse_field
parse_field-at text head content k e t d = rw (parse_field, e, t, d) refl

stored :
    (n : Bytes) (f : Option Bytes) (content : Bytes)
    → store_content content (written_field n f []) ≡ written_field n f content
unfolding store_content
stored n f content = refl

abbrev pub spell_field : Bytes → Option Bytes → Bytes → Bytes
spell_field n f content =
    (codes "Content-Disposition: " ++ spell_disposition n f)
    ++ ((13 ∷ 10 ∷ 13 ∷ 10 ∷ []) ++ content)

-- A field of a form is read as it is written: with the name, the file name of a file, the content
-- byte by byte, and Content-Disposition as its only header. The names hold no quote and no line end,
-- the first holds no "=", and the text fits into memory.
pub parse_field-spell_field :
    (n : Bytes) (f : Option Bytes) (content : Bytes)
    → IsNamed n f
    → length (spell_field n f content) < 2 ^ 64
    → parse_field (spell_field n f content) ≡ some (written_field n f content)
parse_field-spell_field n f content h fits =
    let v = spell_disposition n f in
    let head = codes "Content-Disposition: " ++ v in
    let rest = (13 ∷ 10 ∷ 13 ∷ 10 ∷ []) ++ content in
    let (lf, cr) = filename_lines f h.filename_clean in
    let no_lf = disposition_lines 10 n f (omega arith) (omega arith) h.name_line.0 lf in
    let no_cr = disposition_lines 13 n f (omega arith) (omega arith) h.name_line.1 cr in
    let sizes : length (head ++ rest) ≡ length head + length rest = length-append head rest in
    let front : take (header_length (length head + 4)) (head ++ rest) ≡ head =
      ap (λ k. take k (head ++ rest)) (header_length-add (length head) (omega (arith, fits, sizes)))
      ∙ take-length-append head rest in
    let back : drop (length head + 4) (head ++ rest) ≡ content =
      drop-add (length head) 4 (head ++ rest) ∙ ap (drop 4) (drop-length-append head rest) in
    let parsed = parse_headers-disposition v (before_quote n f) (ends_quoted n f) no_lf in
    let field = read_headers-disposition v ∙ named_by n f h in
    parse_field-at (head ++ rest) head content _ (blank_line_found head content no_cr) front back
    ∙ (ap (λ hs. some (store_content content (read_headers hs))) parsed
        ∙ (ap (λ g. some (store_content content g)) field ∙ ap some (stored n f content)))
