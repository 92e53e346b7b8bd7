-- ===== src/Parser/Field.antt =====
-- `MultipartParser` and the fields it reads (src/parser/multipart_parser.cpp). `set_temp_file` is
-- called nowhere, so a field has no temporary file.
pub mod Laws
pub mod Search
pub mod Disposition
pub mod Encoding
use foxhttp.Prelude.{
  ℕ, zero, suc, ◌+◌, ◌-◌, ◌*◌, ◌/◌, ◌%◌, ◌^◌, ◌≤◌, ◌<◌, ◌≡◌, refl, sym, ap, ◌∙◌, subst, ◌≢◌, ◌↔◌,
  ◌⊎◌, inl, inr, Bool, true, false, ◌&&◌, ◌||◌, not, Option, none, some, List, [], ◌∷◌, ◌++◌, map,
  append-nil, append_assoc, arith, ltb, leb, ◌==◌, if◌then◌else◌, ltb→lt, lt→ltb, leb→le, le→leb,
  ==_iff, ==_refl, ne→==, tests, Bool-cases, Option-cases, Result, ok, err, Result-cases, length,
  get_elem?, take, drop, is_empty, keep, length-append, take-append-drop, length-drop,
  take-length-append, drop-length-append, drop-add, drop-past, All, All-append, Bytes, codes, same,
  find, has, starts_with, Lacks, same_iff, same_refl, find-append, find-eq-none, find-lt-length,
  find-Lacks, find_split, drop_at, lookup, insert, lookup-insert, is_empty_of_lookup, lookup-nil,
  getlines, begin_line, has_suffix, is_space, is_alnum, hex_value, hex_digit, stream_hex, stoi_hex,
  hex_value-hex_digit, getlines-append, getlines-one, between, join, IsLine, getlines-join,
  drop_behind, is_empty-append, ne_of_same, find_text, trim_front_by, trim_back_by, to_string,
}
use foxhttp.Base64.{base64_decode_string}
use foxhttp.Parser.Multipart.{
  MultipartConfig, to_lower, quoted_value, find_header_end, header_length, drop_cr,
}

pub record MultipartField : Type 0 where
  pub name : Bytes
  pub filename : Bytes
  pub content_type : Bytes
  pub encoding : Bytes
  pub headers : List (Bytes × Bytes)
  pub content : Bytes
  pub binary_content : Bytes

abbrev pub new_field : MultipartField
new_field = record {
  name = [];
  filename = [];
  content_type = [];
  encoding = [];
  headers = [];
  content = [];
  binary_content = [];
}

abbrev pub is_file : MultipartField → Bool
is_file f = not (is_empty f.filename)

abbrev pub size : MultipartField → ℕ
size f = length f.content + length f.binary_content

abbrev pub content_as_bytes : MultipartField → Bytes
content_as_bytes f = if is_empty f.binary_content then f.content else f.binary_content

abbrev pub set_content : Bytes → MultipartField → MultipartField
set_content content f = record f { content = content; binary_content = [] }

-- The overload for a vector of bytes.
abbrev pub set_binary_content : Bytes → MultipartField → MultipartField
set_binary_content content f = record f { content = []; binary_content = content }

abbrev pub add_header : Bytes → Bytes → MultipartField → MultipartField
add_header name value f = record f { headers = insert (to_lower name) value f.headers }

abbrev pub header : Bytes → MultipartField → Bytes
header name f = elim (lookup (to_lower name) f.headers) [ none ↦ [] | some value ↦ value ]

abbrev pub validation_error : MultipartField → Bytes
validation_error f =
    if is_empty f.name
    then codes "Field name is empty"
    else if is_file f && is_empty f.filename
    then codes "File field has no filename"
    else []

abbrev pub is_valid : MultipartField → Bool
is_valid f = not (is_empty f.name) && is_empty (validation_error f)

abbrev pub validate_field : MultipartConfig → MultipartField → Bool
validate_field config f =
    if not (is_valid f) then false else not (ltb config.max_file_size (size f))

abbrev pub validate_all_fields : MultipartConfig → List MultipartField → List Bytes
validate_all_fields config fields =
    if ltb config.max_field_size (length fields) then codes "Too many fields" ∷ [] else []

-- `find_first_of("; \t\r\n")`
abbrev pub is_stop : ℕ → Bool
is_stop c = (c == 59) || ((c == 32) || ((c == 9) || ((c == 13) || (c == 10))))

abbrev pub before_stop : Bytes → Bytes
before_stop [] = []
before_stop (c ∷ s) = let rest = before_stop s in if is_stop c then [] else c ∷ rest

abbrev pub ends_in_quote : Bytes → Bool
ends_in_quote [] = false
ends_in_quote (c ∷ []) = c == 34
ends_in_quote (c ∷ d ∷ s) = ends_in_quote (d ∷ s)

abbrev pub begins_with_quote : Bytes → Bool
begins_with_quote [] = false
begins_with_quote (c ∷ s) = c == 34

abbrev pub remove_quotes : Bytes → Bytes
remove_quotes b =
    if leb 2 (length b) && (begins_with_quote b && ends_in_quote b)
    then take (length b - 2) (drop 1 b)
    else b

unfoldable pub extract_boundary : Bytes → Bytes
unfolding find_text
extract_boundary content_type = elim (find_text (codes "boundary=") content_type) [
  | none ↦ []
  | some pos ↦ remove_quotes (before_stop (drop (pos + 9) content_type))
]

-- `trim`, from the first to the last character that is not one of " \t\r\n".
abbrev pub is_blank : ℕ → Bool
is_blank c = (c == 32) || ((c == 9) || ((c == 13) || (c == 10)))

abbrev pub trim_front : Bytes → Bytes
trim_front = trim_front_by is_blank

abbrev pub trim_back : Bytes → Bytes
trim_back = trim_back_by is_blank

abbrev pub trim : Bytes → Bytes
trim s = trim_back (trim_front s)

unfoldable pub parse_header_line : Bytes → List (Bytes × Bytes) → List (Bytes × Bytes)
parse_header_line line headers = elim (find b':' (drop_cr line)) [
  | none ↦ headers
  | some colon ↦
      insert (to_lower (trim (take colon (drop_cr line)))) (trim (drop (suc colon) (drop_cr line)))
        headers
]

abbrev pub parse_header_lines : List Bytes → List (Bytes × Bytes) → List (Bytes × Bytes)
parse_header_lines [] headers = headers
parse_header_lines (line ∷ lines) headers =
    parse_header_lines lines (parse_header_line line headers)

unfoldable pub parse_headers : Bytes → List (Bytes × Bytes)
unfolding parse_header_line
parse_headers header_data = parse_header_lines (getlines 10 header_data) []

abbrev pub is_xdigit : ℕ → Bool
is_xdigit c = elim (hex_value c) [ none ↦ false | some v ↦ true ]

-- `std::stoi(hex, nullptr, 16)` where both characters are digits.
abbrev pub hex_pair : ℕ → ℕ → Option ℕ
hex_pair a b = if is_xdigit a && is_xdigit b then stoi_hex a b else none

unfoldable pub quoted_printable_decode : Bytes → Bytes
quoted_printable_decode [] = []
quoted_printable_decode (c ∷ []) = if c == b'=' then [] else c ∷ []
quoted_printable_decode (c ∷ d ∷ []) = c ∷ quoted_printable_decode (d ∷ [])
quoted_printable_decode (c ∷ a ∷ b ∷ s) =
    let behind = quoted_printable_decode s in
    let rest = quoted_printable_decode (a ∷ b ∷ s) in
    if c == b'=' then elim (hex_pair a b) [ some v ↦ v ∷ behind | none ↦ c ∷ rest ] else c ∷ rest

unfoldable pub decode_content : Bytes → Bytes → Bytes
unfolding quoted_printable_decode base64_decode_string
decode_content content encoding =
    if same (to_lower encoding) (codes "quoted-printable")
    then quoted_printable_decode content
    else if same (to_lower encoding) (codes "base64")
    then base64_decode_string content
    else content

unfoldable pub decode_binary_content : Bytes → Bytes → Bytes
unfolding decode_content base64_decode_string
decode_binary_content content encoding =
    if same (to_lower encoding) (codes "base64")
    then base64_decode_string content
    else decode_content content encoding

abbrev pub add_headers : List (Bytes × Bytes) → MultipartField → MultipartField
add_headers [] f = f
add_headers ((name, value) ∷ headers) f = add_headers headers (add_header name value f)

-- The parameters `name` and `filename` of Content-Disposition.
unfoldable pub set_disposition : Bytes → MultipartField → MultipartField
unfolding quoted_value
set_disposition disposition f =
    let named : MultipartField = elim (quoted_value (codes "name=" ++ 34 ∷ []) disposition) [
      | none ↦ f
      | some name ↦ record f { name = name }
    ] in
    elim (quoted_value (codes "filename=" ++ 34 ∷ []) disposition) [
      | none ↦ named
      | some filename ↦ record named { filename = filename }
    ]

-- What is found under a header is stored.
abbrev pub with_header :
    Bytes
    → (Bytes → MultipartField → MultipartField)
    → List (Bytes × Bytes)
    → MultipartField
    → MultipartField
with_header name set headers f = elim (lookup name headers) [ none ↦ f | some value ↦ set value f ]

abbrev pub read_headers : List (Bytes × Bytes) → MultipartField
read_headers headers =
    let disposed =
      with_header (codes "content-disposition") set_disposition headers
        (add_headers headers new_field) in
    let typed =
      with_header (codes "content-type") (λ v f. record f { content_type = v }) headers disposed in
    with_header (codes "content-transfer-encoding") (λ v f. record f { encoding = v }) headers typed

unfoldable pub store_content : Bytes → MultipartField → MultipartField
unfolding decode_content decode_binary_content
store_content content f =
    if is_empty f.encoding
    then set_content content f
    else if is_file f
    then set_binary_content (decode_binary_content content f.encoding) f
    else set_content (decode_content content f.encoding) f

unfoldable pub parse_field : Bytes → Option MultipartField
unfolding find_header_end parse_headers set_disposition store_content
parse_field field_data = elim (find_header_end field_data) [
  | none ↦ none
  | some header_end ↦
      let headers = parse_headers (take (header_length header_end) field_data) in
      some (store_content (drop header_end field_data) (read_headers headers))
]

-- `MultipartParser`, whose `parse_with_boundary` gives no field.
abbrev pub supports : Bytes → Bool
supports content_type = starts_with content_type (codes "multipart/form-data")

abbrev pub parse_with_boundary : Bytes → Bytes → List MultipartField
parse_with_boundary body boundary = []

abbrev pub parse : Bytes → Bytes → Result Bytes (List MultipartField)
parse content_type body = ok (parse_with_boundary body (extract_boundary content_type))
