-- ===== src/Parser/Multipart.antt =====
-- `MultipartStreamParser` of src/parser/multipart_parser.cpp, fed piece by piece. A field of it holds
-- its headers, name and file name; content is measured and not kept. Error messages are listed.
pub mod Loop
pub mod Limits
use foxhttp.Prelude.{
  ℕ, zero, suc, ◌+◌, ◌-◌, ◌*◌, ◌/◌, ◌%◌, ◌^◌, ◌≤◌, ◌<◌, ◌≡◌, refl, sym, ap, ◌∙◌, subst, ◌≢◌, ◌↔◌,
  ◌⊎◌, inl, inr, Bool, true, false, ◌&&◌, ◌||◌, not, Option, none, some, List, [], ◌∷◌, ◌++◌, map,
  append-nil, append_assoc, arith, ltb, leb, ◌==◌, if◌then◌else◌, ltb→lt, lt→ltb, leb→le, le→leb,
  ==_iff, ==_refl, ne→==, tests, Bool-cases, Option-cases, Result, ok, err, Result-cases, length,
  get_elem?, take, drop, is_empty, keep, length-append, take-append-drop, length-drop,
  take-length-append, drop-length-append, drop-add, drop-past, All, All-append, Bytes, codes, same,
  find, has, starts_with, Lacks, same_iff, same_refl, find-append, find-eq-none, find-lt-length,
  find-Lacks, find_split, drop_at, lookup, insert, lookup-insert, is_empty_of_lookup, lookup-nil,
  getlines, begin_line, has_suffix, is_space, is_alnum, hex_value, hex_digit, stream_hex, stoi_hex,
  hex_value-hex_digit, getlines-append, getlines-one, between, join, IsLine, getlines-join,
  drop_behind, is_empty-append, ne_of_same, to_string, find_text,
}
use mathlib.Core.Option
use foxhttp.Server.Context.{erase_blanks}

pub data ParseState : Type 0 where
  at_boundary at_headers in_content complete failed : ParseState

pub record MultipartConfig : Type 0 where
  pub max_field_size : ℕ
  pub max_file_size : ℕ

pub record MultipartField : Type 0 where
  pub name : Bytes
  pub filename : Bytes
  pub headers : List (Bytes × Bytes)

pub record StreamParser : Type 0 where
  pub full_boundary : Bytes
  pub state : ParseState
  pub bytes_processed : ℕ
  pub current_field_size : ℕ
  pub current_field_name : Bytes
  pub buffer : Bytes
  pub current_field : Option MultipartField
  pub result : List MultipartField
  pub errors : List Bytes

abbrev pub new_field : MultipartField
new_field = record { name = []; filename = []; headers = [] }

unfoldable pub new_stream : Bytes → StreamParser
new_stream boundary = record {
  full_boundary = codes "--" ++ boundary;
  state = at_boundary;
  bytes_processed = 0;
  current_field_size = 0;
  current_field_name = [];
  buffer = [];
  current_field = none;
  result = [];
  errors = [];
}

abbrev pub is_file : MultipartField → Bool
is_file f = not (is_empty f.filename)

abbrev pub to_lower : Bytes → Bytes
to_lower = map (λ c. if between 65 90 c then c + 32 else c)

abbrev pub add_header : Bytes → Bytes → MultipartField → MultipartField
add_header name value f = record f { headers = insert (to_lower name) value f.headers }

abbrev pub handle_error : Bytes → StreamParser → StreamParser
handle_error message s = record s { state = failed; errors = s.errors ++ message ∷ [] }

-- One line break is skipped.
abbrev pub skip_newline : Bytes → Bytes
skip_newline s =
    if starts_with s (13 ∷ 10 ∷ [])
    then drop 2 s
    else if starts_with s (10 ∷ [])
    then drop 1 s
    else s

unfoldable pub process_boundary : StreamParser → Bool × StreamParser
unfolding find_text
process_boundary s = elim (find_text s.full_boundary s.buffer) [
  | none ↦
      if ltb (length s.full_boundary + 100) (length s.buffer)
      then (false, handle_error (codes "Boundary not found in expected position") s)
      else (false, s)
  | some pos ↦
      let rest = drop (pos + length s.full_boundary) s.buffer in
      if starts_with rest (codes "--")
      then (true, record s { buffer = rest; state = complete })
      else (true, record s { buffer = skip_newline rest; state = at_headers })
]

-- `header_end`, behind the blank line.
unfoldable pub find_header_end : Bytes → Option ℕ
unfolding find_text
find_header_end buffer = elim (find_text (13 ∷ 10 ∷ 13 ∷ 10 ∷ []) buffer) [
  | some pos ↦ some (pos + 4)
  | none ↦ elim (find_text (10 ∷ 10 ∷ []) buffer) [ some pos ↦ some (pos + 2) | none ↦ none ]
]

abbrev pub drop_cr : Bytes → Bytes
drop_cr [] = []
drop_cr (c ∷ []) = if c == 13 then [] else c ∷ []
drop_cr (c ∷ d ∷ s) = c ∷ drop_cr (d ∷ s)

-- The text in quotes behind `key`.
unfoldable pub quoted_value : Bytes → Bytes → Option Bytes
unfolding find_text
quoted_value key value = elim (find_text key value) [
  | none ↦ none
  | some pos ↦
      let rest = drop (pos + length key) value in
      elim (find 34 rest) [ none ↦ none | some stop ↦ some (take stop rest) ]
]

-- `Content-Disposition`, on the field and the current name.
unfoldable pub read_disposition : Bytes → MultipartField × Bytes → MultipartField × Bytes
unfolding quoted_value
read_disposition value (f, current) =
    let named : MultipartField × Bytes = elim (quoted_value (codes "name=" ++ 34 ∷ []) value) [
      | none ↦ (f, current)
      | some name ↦ (record f { name = name }, name)
    ] in
    elim (quoted_value (codes "filename=" ++ 34 ∷ []) value) [
      | none ↦ named
      | some filename ↦ (record (named.0) { filename = filename }, named.1)
    ]

unfoldable pub read_header_line : Bytes → MultipartField × Bytes → MultipartField × Bytes
unfolding read_disposition
read_header_line line (f, current) = elim (find b':' (drop_cr line)) [
  | none ↦ (f, current)
  | some colon ↦
      let name = erase_blanks (take colon (drop_cr line)) in
      let value = erase_blanks (drop (suc colon) (drop_cr line)) in
      if same name (codes "Content-Disposition")
      then read_disposition value (add_header name value f, current)
      else (add_header name value f, current)
]

abbrev pub read_header_lines : List Bytes → MultipartField × Bytes → MultipartField × Bytes
read_header_lines [] acc = acc
read_header_lines (line ∷ lines) acc = read_header_lines lines (read_header_line line acc)

-- `header_end - 4`, of type `size_t`.
abbrev pub header_length : ℕ → ℕ
header_length header_end = (header_end + 2 ^ 64 - 4) % 2 ^ 64

unfoldable pub process_headers : StreamParser → Bool × StreamParser
unfolding find_header_end read_header_line
process_headers s = elim (find_header_end s.buffer) [
  | none ↦ (false, s)
  | some header_end ↦
      let read =
        read_header_lines (getlines 10 (take (header_length header_end) s.buffer))
          (new_field, s.current_field_name) in
      (
        true,
        record s {
          buffer = drop header_end s.buffer;
          current_field = some read.0;
          current_field_name = read.1;
          current_field_size = 0;
          state = in_content;
        },
      )
]

module _ (config : MultipartConfig) where
  unfoldable pub write_content_data : ℕ → StreamParser → StreamParser
  write_content_data size s = elim s.current_field [
    | none ↦ s
    | some f ↦
        let total = s.current_field_size + size in
        let counted = record s { current_field_size = total } in
        if is_file f
        then if ltb config.max_file_size total
          then handle_error (codes "File size exceeds maximum allowed size") counted
          else counted
        else if ltb config.max_field_size total
        then handle_error (codes "Field size exceeds maximum allowed size") counted
        else counted
  ]

  abbrev pub finalize_current_field : StreamParser → StreamParser
  finalize_current_field s = elim s.current_field [
    | none ↦ s
    | some f ↦ record s { result = s.result ++ f ∷ []; current_field = none }
  ]

  -- The loop that leaves out line breaks at the end.
  abbrev pub content_end : Bytes → ℕ
  content_end [] = 0
  content_end (c ∷ s) =
      let rest = content_end s in if (rest == 0) && ((c == 10) || (c == 13)) then 0 else suc rest

  unfoldable pub process_content : StreamParser → Bool × StreamParser
  unfolding write_content_data find_text
  process_content s = elim (find_text s.full_boundary s.buffer) [
    | none ↦
        if ltb (length s.full_boundary + 100) (length s.buffer)
        then (
          false,
          record (write_content_data (length s.buffer - length s.full_boundary - 10) s) {
            buffer = [];
          },
        )
        else (false, s)
    | some pos ↦
        let size = content_end (take pos s.buffer) in
        let written = if size == 0 then s else write_content_data size s in
        let closed = finalize_current_field (record written { buffer = drop pos s.buffer }) in
        (true, record closed { state = at_boundary })
  ]

  -- One round of the loop: `none` where it stops, with what it leaves.
  unfoldable pub process : StreamParser → Bool × StreamParser
  unfolding process_boundary process_headers process_content
  process s = elim s.state [
    | at_boundary ↦ process_boundary s
    | at_headers ↦ process_headers s
    | in_content ↦ process_content s
    | complete ↦ (false, s)
    | failed ↦ (false, s)
  ]

  unfoldable pub feed_loop : ℕ → StreamParser → Option StreamParser
  unfolding process
  feed_loop zero s = none
  feed_loop (suc fuel) s =
      let (processed, after) = process s in
      let rest = feed_loop fuel after in
      if is_empty s.buffer then some s else if processed then rest else some after

  abbrev pub append_data : Bytes → StreamParser → StreamParser
  append_data text s = record s {
    buffer = s.buffer ++ text;
    bytes_processed = s.bytes_processed + length text;
  }

  -- Each round shortens the buffer or leaves the content of a field.
  abbrev pub feed_fuel : StreamParser → ℕ
  feed_fuel s = 3 * length s.buffer + 3

  unfoldable pub feed_data : Bytes → StreamParser → Option StreamParser
  unfolding feed_loop
  feed_data text s = feed_loop (feed_fuel (append_data text s)) (append_data text s)

abbrev pub is_complete : StreamParser → Bool
is_complete s = elim s.state [ complete ↦ true | _ ↦ false ]

unfoldable pub reset : StreamParser → StreamParser
reset s = record s {
  buffer = [];
  result = [];
  state = at_boundary;
  bytes_processed = 0;
  current_field_size = 0;
}

unfoldable pub abort : StreamParser → StreamParser
abort s = record s { state = failed }
