-- ===== src/Parser/Form.antt =====
-- `FormParser` and `FormField`: src/parser/form_parser.cpp and include/foxhttp/parser/detail/form_parser_impl.hpp.
-- The table of fields is an association list; a parse that throws is the text of its error.
pub mod Laws
pub mod Errors
use foxhttp.Prelude.{
  ℕ, zero, suc, ◌+◌, ◌-◌, ◌*◌, ◌/◌, ◌%◌, ◌^◌, ◌≤◌, ◌<◌, ◌≡◌, refl, sym, ap, ◌∙◌, subst, ◌≢◌, ◌↔◌,
  ◌⊎◌, inl, inr, Bool, true, false, ◌&&◌, ◌||◌, not, Option, none, some, List, [], ◌∷◌, ◌++◌, map,
  append-nil, append_assoc, arith, ltb, leb, ◌==◌, if◌then◌else◌, ltb→lt, lt→ltb, leb→le, le→leb,
  ==_iff, ==_refl, ne→==, tests, Bool-cases, Option-cases, Result, ok, err, Result-cases, length,
  get_elem?, take, drop, is_empty, keep, length-append, take-append-drop, length-drop,
  take-length-append, drop-length-append, drop-add, drop-past, All, All-append, Bytes, codes, same,
  find, has, starts_with, Lacks, same_iff, same_refl, find-append, find-eq-none, find-lt-length,
  find-Lacks, find_split, drop_at, lookup, insert, lookup-insert, is_empty_of_lookup, lookup-nil,
  getlines, begin_line, has_suffix, is_space, is_alnum, hex_value, hex_digit, stream_hex, stoi_hex,
  hex_value-hex_digit, getlines-append, getlines-one, between, to_string,
}
use foxhttp.Url.{decode_with}
use mathlib.Core.Option

pub record FormConfig : Type 0 where
  pub max_field_size : ℕ
  pub max_total_size : ℕ
  pub max_fields : ℕ
  pub support_arrays : Bool

-- ---- FormField ----
pub record FormField : Type 0 where
  pub name : Bytes
  pub values : List Bytes
  pub is_array : Bool

abbrev pub empty_field : FormField
empty_field = record { name = []; values = []; is_array = false }

unfoldable pub value_at : FormField → ℕ → Bytes
value_at f i = elim (get_elem? f.values i) [ none ↦ [] | some v ↦ v ]

unfoldable pub value : FormField → Bytes
value f = elim f.values [ [] ↦ [] | (v ∷ vs) ↦ v ]

unfoldable pub validation_error : FormField → Bytes
validation_error f = if is_empty f.name then codes "Field name is empty" else []

unfoldable pub is_valid : FormField → Bool
unfolding validation_error
is_valid f = not (is_empty f.name) && is_empty (validation_error f)

abbrev pub set_name : Bytes → FormField → FormField
set_name name f = record f { name = name }

abbrev pub add_value : Bytes → FormField → FormField
add_value v f = record f { values = f.values ++ v ∷ []; is_array = true }

abbrev pub set_single_value : Bytes → FormField → FormField
set_single_value v f = record f { values = v ∷ []; is_array = false }

-- ---- FormParserImpl ----
unfoldable pub url_decode : Bytes → Bytes
unfolding decode_with
url_decode encoded = decode_with stream_hex encoded

abbrev pub extract_field_name : Bytes → Bytes
extract_field_name pair = elim (find b'=' pair) [ some i ↦ take i pair | none ↦ pair ]

abbrev pub extract_field_value : Bytes → Bytes
extract_field_value pair = elim (find b'=' pair) [ some i ↦ drop (suc i) pair | none ↦ [] ]

module _ (config : FormConfig) where
  abbrev pub is_array_field : Bytes → Bool
  is_array_field name = config.support_arrays && has_suffix name (codes "[]")

  abbrev pub normalize_field_name : Bytes → Bytes
  normalize_field_name name = if is_array_field name then take (length name - 2) name else name

  abbrev pub validate_field_size : Bytes → Bytes → Bool
  validate_field_size name v =
      leb (length name) config.max_field_size && leb (length v) config.max_field_size

  -- What `parse_pairs` does with a decoded name and value.
  unfoldable pub store : Bytes → Bytes → List (Bytes × FormField) → List (Bytes × FormField)
  store name v fields =
      let key = normalize_field_name name in
      elim (lookup key fields) [
        | some f ↦ insert key (add_value v f) fields
        | none ↦
            let f = set_name key empty_field in
            insert key (if is_array_field name then add_value v f else set_single_value v f) fields
      ]

  unfoldable pub parse_loop :
      List Bytes → List (Bytes × FormField) → Result Bytes (List (Bytes × FormField))
  unfolding store
  parse_loop [] fields = ok fields
  parse_loop (pair ∷ pairs) fields =
      let name = extract_field_name pair in
      let v = extract_field_value pair in
      elim (is_empty pair) [
        | true ↦ parse_loop pairs fields
        | false ↦ elim (validate_field_size name v) [
          | false ↦ err (codes "Field size exceeds maximum allowed size")
          | true ↦ parse_loop pairs (store (url_decode name) (url_decode v) fields)
        ]
      ]

  unfoldable pub parse_pairs : Bytes → Result Bytes (List (Bytes × FormField))
  unfolding parse_loop
  parse_pairs body = parse_loop (getlines b'&' body) []

  unfoldable pub parse : Bytes → Result Bytes (List (Bytes × FormField))
  unfolding parse_pairs
  parse body =
      if ltb config.max_total_size (length body)
      then err (codes "Request body exceeds maximum total size")
      else parse_pairs body

  -- ---- the validators ----
  abbrev pub sizes : List Bytes → ℕ
  sizes [] = 0
  sizes (v ∷ vs) = length v + sizes vs

  abbrev pub total_size : List (Bytes × FormField) → ℕ
  total_size [] = 0
  total_size ((name, f) ∷ fields) = (length name + sizes f.values) + total_size fields

  unfoldable pub validate_total_size : List (Bytes × FormField) → Bool
  validate_total_size fields = leb (total_size fields) config.max_total_size

  unfoldable pub validate_field_count : List (Bytes × FormField) → Bool
  validate_field_count fields = leb (length fields) config.max_fields

  abbrev pub values_fit : List Bytes → Bool
  values_fit [] = true
  values_fit (v ∷ vs) = if ltb config.max_field_size (length v) then false else values_fit vs

  unfoldable pub validate_field : FormField → Bool
  unfolding is_valid
  validate_field f = if is_valid f then values_fit f.values else false

  unfoldable pub field_errors : List (Bytes × FormField) → List Bytes
  unfolding validate_field
  field_errors [] = []
  field_errors ((name, f) ∷ fields) =
      if validate_field f
      then field_errors fields
      else (codes "Field '" ++ (name ++ codes "' validation failed")) ∷ field_errors fields

  unfoldable pub validate_all_fields : List (Bytes × FormField) → List Bytes
  unfolding validate_total_size validate_field_count field_errors
  validate_all_fields fields =
      (if validate_field_count fields then [] else codes "Too many fields" ∷ [])
      ++ ((if validate_total_size fields then [] else codes "Total data size exceeds limit" ∷ [])
          ++ field_errors fields)

-- `supports`, of the content type of the request.
abbrev pub supports : Bytes → Bool
supports content_type = starts_with content_type (codes "application/x-www-form-urlencoded")
