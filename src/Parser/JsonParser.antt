-- ===== src/Parser/JsonParser.antt =====
-- `JsonParser` (src/parser/json_parser.cpp). `nlohmann::json::parse` is a parameter: it gives a value
-- or the text of its error.
pub mod Text
pub mod Depth
use foxhttp.Prelude.{
  ℕ, zero, suc, ◌+◌, ◌-◌, ◌*◌, ◌/◌, ◌%◌, ◌^◌, ◌≤◌, ◌<◌, ◌≡◌, refl, sym, ap, ◌∙◌, subst, ◌≢◌, ◌↔◌,
  ◌⊎◌, inl, inr, Bool, true, false, ◌&&◌, ◌||◌, not, Option, none, some, List, [], ◌∷◌, ◌++◌, map,
  append-nil, append_assoc, arith, ltb, leb, ◌==◌, if◌then◌else◌, ltb→lt, lt→ltb, leb→le, le→leb,
  ==_iff, ==_refl, ne→==, tests, Bool-cases, Option-cases, Result, ok, err, Result-cases, length,
  get_elem?, take, drop, is_empty, keep, length-append, take-append-drop, length-drop,
  take-length-append, drop-length-append, drop-add, drop-past, All, All-append, Bytes, codes, same,
  find, has, starts_with, Lacks, same_iff, same_refl, find-append, find-eq-none, find-lt-length,
  find-Lacks, find_split, drop_at, lookup, insert, lookup-insert, is_empty_of_lookup, lookup-nil,
  getlines, begin_line, has_suffix, is_space, is_alnum, hex_value, hex_digit, stream_hex, stoi_hex,
  hex_value-hex_digit, getlines-append, getlines-one, between, join, IsLine, getlines-join,
  drop_behind, is_empty-append, ne_of_same, find_text, trim_front_by, trim_back_by, to_string,
}

-- A value as the tests `is_object` and `is_array` and the loops over its elements show it: an element
-- has a key in an object, and none in an array.
mutual
  pub data Json : Type 0 where
    scalar : Json
    array object : Items → Json

  pub data Items : Type 0 where
    end : Items
    item : Bytes → Json → Items → Items

pub record JsonConfig : Type 0 where
  pub max_size : ℕ
  pub max_depth : ℕ
  pub allow_comments : Bool
  pub allow_trailing_commas : Bool

-- The loop that erases from each "//" to the end of its line, in one pass; the flag is set between
-- the two.
unfoldable pub remove_comments : Bool → Bytes → Bytes
remove_comments erasing [] = []
remove_comments true (c ∷ s) =
    let inside = remove_comments true s in
    let behind = remove_comments false s in if c == 10 then c ∷ behind else inside
remove_comments false (c ∷ s) =
    let inside = remove_comments true s in
    let behind = remove_comments false s in
    if starts_with (c ∷ s) (codes "//") then inside else c ∷ behind

-- The loops that take the comma out of each `key`: from the position `pos` on, which is `npos` where
-- it is `none`.
abbrev pub take_commas : Bytes → Bytes → Bytes
take_commas key [] = []
take_commas key (c ∷ s) =
    let rest = take_commas key s in if starts_with (c ∷ s) key then rest else c ∷ rest

abbrev pub remove_commas : Option ℕ → Bytes → Bytes → Bytes
remove_commas none key s = s
remove_commas (some pos) key s = take pos s ++ take_commas key (drop pos s)

-- The second loop goes on with the `pos` at which the first one ended.
unfoldable pub preprocess_json : JsonConfig → Bytes → Bytes
unfolding remove_comments
preprocess_json config s =
    let bare = if config.allow_comments then s else remove_comments false s in
    if config.allow_trailing_commas
    then bare
    else remove_commas none (codes ",]") (remove_commas (some 0) (codes ",}") bare)

-- `std::max`
abbrev pub max : ℕ → ℕ → ℕ
max a b = if ltb a b then b else a

unfoldable mutual
  pub calculate_depth : Json → ℕ → ℕ
  calculate_depth scalar current_depth = current_depth
  calculate_depth (array items) current_depth = deepest items current_depth current_depth
  calculate_depth (object items) current_depth = deepest items current_depth current_depth

  pub deepest : Items → ℕ → ℕ → ℕ
  deepest end current_depth max_depth = max_depth
  deepest (item key value items) current_depth max_depth =
      deepest items current_depth (max max_depth (calculate_depth value (current_depth + 1)))

abbrev pub depth_error : ℕ → ℕ → Bytes
depth_error depth max_depth =
    codes "JSON depth validation failed: JSON depth ("
    ++ (to_string depth
        ++ (codes ") exceeds maximum allowed depth (" ++ (to_string max_depth ++ codes ")")))

module _ (json_parse : Bytes → Result Bytes Json) where
  unfoldable pub parse_with_validation : JsonConfig → Bytes → Result Bytes Json
  unfolding preprocess_json calculate_depth
  parse_with_validation config s = elim (json_parse (preprocess_json config s)) [
    | err what ↦ err (codes "JSON parse error: " ++ what)
    | ok json ↦
        if ltb config.max_depth (calculate_depth json 0)
        then err (depth_error (calculate_depth json 0) config.max_depth)
        else ok json
  ]

  unfoldable pub parse : JsonConfig → Bytes → Result Bytes Json
  unfolding parse_with_validation
  parse config body =
      if ltb config.max_size (length body)
      then err (codes "JSON size exceeds maximum allowed size")
      else parse_with_validation config body
