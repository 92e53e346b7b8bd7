-- ===== src/Parser/PlainText.antt =====
-- `PlainTextParser`: src/parser/plaintext_parser.cpp. Bytes are numbers below 256; the masks of
-- `is_valid_utf8` are written as quotients: `(b & 0xC0) == 0x80` is `b / 64 == 2`.
pub mod Lines
pub mod Trim
pub mod Utf8
use foxhttp.Prelude.{
  ℕ, zero, suc, ◌+◌, ◌-◌, ◌*◌, ◌/◌, ◌%◌, ◌^◌, ◌≤◌, ◌<◌, ◌≡◌, refl, sym, ap, ◌∙◌, subst, ◌≢◌, ◌↔◌,
  ◌⊎◌, inl, inr, Bool, true, false, ◌&&◌, ◌||◌, not, Option, none, some, List, [], ◌∷◌, ◌++◌, map,
  append-nil, append_assoc, arith, ltb, leb, ◌==◌, if◌then◌else◌, ltb→lt, lt→ltb, leb→le, le→leb,
  ==_iff, ==_refl, ne→==, tests, Bool-cases, Option-cases, Result, ok, err, Result-cases, length,
  get_elem?, take, drop, is_empty, keep, length-append, take-append-drop, length-drop,
  take-length-append, drop-length-append, drop-add, drop-past, All, All-append, Bytes, codes, same,
  find, has, starts_with, Lacks, same_iff, same_refl, find-append, find-eq-none, find-lt-length,
  find-Lacks, find_split, drop_at, lookup, insert, lookup-insert, is_empty_of_lookup, lookup-nil,
  getlines, begin_line, has_suffix, is_space, is_alnum, hex_value, hex_digit, stream_hex, stoi_hex,
  hex_value-hex_digit, getlines-append, getlines-one, between, to_string,
}

pub record PlainTextConfig : Type 0 where
  pub max_size : ℕ
  pub normalize : Bool
  pub trim : Bool
  pub validate_encoding : Bool
  pub strict_mode : Bool
  pub allowed_content_types : List Bytes

-- The constructor, which fills in the content types where there are none.
unfoldable pub new_parser : PlainTextConfig → PlainTextConfig
new_parser config =
    if is_empty config.allowed_content_types
    then record config {
      allowed_content_types =
          codes "text/plain"
          ∷ codes "text/html"
          ∷ codes "text/css"
          ∷ codes "text/javascript"
          ∷ codes "text/xml"
          ∷ codes "text/csv"
          ∷ codes "text/markdown"
          ∷ [];
    }
    else config

abbrev pub any_allows : Bytes → List Bytes → Bool
any_allows content_type [] = false
any_allows content_type (allowed ∷ more) =
    if same content_type allowed || starts_with content_type (allowed ++ codes ";")
    then true
    else any_allows content_type more

unfoldable pub is_allowed_content_type : PlainTextConfig → Bytes → Bool
is_allowed_content_type config content_type =
    if is_empty config.allowed_content_types
    then true
    else any_allows content_type config.allowed_content_types

unfoldable pub supports : PlainTextConfig → Bytes → Bool
unfolding is_allowed_content_type
supports config content_type =
    if config.strict_mode
    then is_allowed_content_type config content_type
    else starts_with content_type (codes "text/")

-- The first loop of `normalize_line_endings`: "\r\n" becomes "\n".
unfoldable pub replace_crlf : Bytes → Bytes
replace_crlf [] = []
replace_crlf (c ∷ []) = c ∷ []
replace_crlf (c ∷ d ∷ s) = elim ((c == 13) && (d == 10)) [
  | true ↦ 10 ∷ replace_crlf s
  | false ↦ c ∷ replace_crlf (d ∷ s)
]

-- The second: what is left of '\r' becomes '\n'.
unfoldable pub replace_cr : Bytes → Bytes
replace_cr [] = []
replace_cr (c ∷ s) = (if c == 13 then 10 else c) ∷ replace_cr s

unfoldable pub normalize_line_endings : Bytes → Bytes
unfolding replace_crlf replace_cr
normalize_line_endings text = replace_cr (replace_crlf text)

-- Where the first loop of `trim_whitespace` stops.
abbrev pub trim_start : Bytes → ℕ
trim_start [] = 0
trim_start (c ∷ s) = if is_space c then suc (trim_start s) else 0

abbrev pub space_at : Bytes → ℕ → Bool
space_at text i = elim (get_elem? text i) [ none ↦ false | some c ↦ is_space c ]

-- Where the second stops: `end + 1`.
abbrev pub trim_stop : Bytes → ℕ → ℕ → ℕ
trim_stop text start zero = zero
trim_stop text start (suc end) =
    if leb start end && space_at text end then trim_stop text start end else suc end

unfoldable pub trim_whitespace : Bytes → Bytes
trim_whitespace text =
    let start = trim_start text in
    let stop = trim_stop text start (length text) in
    if is_empty text
    then text
    else if leb stop start
    then []
    else take (stop - start) (drop start text)

abbrev pub is_continuation : ℕ → Bool
is_continuation b = b / 64 == 2

unfoldable pub is_valid_utf8 : Bytes → Bool
is_valid_utf8 [] = true
is_valid_utf8 (a ∷ []) = ltb a 128
is_valid_utf8 (a ∷ b ∷ []) = if ltb a 128 then ltb b 128 else (a / 32 == 6) && is_continuation b
is_valid_utf8 (a ∷ b ∷ c ∷ []) = elim (ltb a 128) [
  | true ↦ is_valid_utf8 (b ∷ c ∷ [])
  | false ↦ elim (a / 32 == 6) [
    | true ↦ is_continuation b && is_valid_utf8 (c ∷ [])
    | false ↦ (a / 16 == 14) && (is_continuation b && is_continuation c)
  ]
]
is_valid_utf8 (a ∷ b ∷ c ∷ d ∷ s) = elim (ltb a 128) [
  | true ↦ is_valid_utf8 (b ∷ c ∷ d ∷ s)
  | false ↦ elim (a / 32 == 6) [
    | true ↦ is_continuation b && is_valid_utf8 (c ∷ d ∷ s)
    | false ↦ elim (a / 16 == 14) [
      | true ↦ (is_continuation b && is_continuation c) && is_valid_utf8 (d ∷ s)
      | false ↦
          (a / 8 == 30)
          && (((is_continuation b && is_continuation c) && is_continuation d) && is_valid_utf8 s)
    ]
  ]
]

unfoldable pub process_text : PlainTextConfig → Bytes → Result Bytes Bytes
unfolding normalize_line_endings trim_whitespace is_valid_utf8
process_text config text =
    let lines = if config.normalize then normalize_line_endings text else text in
    let result = if config.trim then trim_whitespace lines else lines in
    if config.validate_encoding && not (is_valid_utf8 result)
    then err (codes "Invalid UTF-8 encoding detected")
    else ok result

unfoldable pub parse : PlainTextConfig → Bytes → Bytes → Result Bytes Bytes
unfolding is_allowed_content_type process_text
parse config content_type body =
    if ltb config.max_size (length body)
    then err (codes "Text size exceeds maximum allowed size")
    else if config.strict_mode && not (is_allowed_content_type config content_type)
    then err (codes "Content type not allowed: " ++ content_type)
    else process_text config body
