-- ===== src/Tests/JsonTests.antt =====
-- The JSON parser around a library that reads "[]" and "{}" only.
use foxhttp.Prelude.{
  ◌≤◌, ◌≡◌, refl, ◌↔◌, false, none, [], ◌∷◌, ◌++◌, if◌then◌else◌, Result, ok, err, Bytes, codes,
  same, find_text,
}
use foxhttp.Parser.JsonParser.{Json, array, end, item, JsonConfig, preprocess_json, parse}
use foxhttp.Parser.JsonParser.Text.{preprocess_json-same_iff}
use foxhttp.Parser.JsonParser.Depth.{depth, parse-ok_iff}

abbrev by_default : JsonConfig
by_default = record {
  max_size = 64;
  max_depth = 1;
  allow_comments = false;
  allow_trailing_commas = false;
}

-- A URL in a string: {"u":"http://x"}
abbrev with_url : Bytes
with_url =
    codes "{" ++ (34 ∷ codes "u" ++ (34 ∷ codes ":" ++ (34 ∷ codes "http://x" ++ (34 ∷ codes "}"))))

url_cut :
    preprocess_json by_default with_url
    ≡ codes "{" ++ (34 ∷ codes "u" ++ (34 ∷ codes ":" ++ (34 ∷ codes "http:")))
unfolding preprocess_json
url_cut = refl

-- The comma is taken out in front of a brace and left in front of a bracket.
array_comma_kept : preprocess_json by_default (codes "{a,}[1,]") ≡ codes "{a}[1,]"
unfolding preprocess_json
array_comma_kept = refl

preprocess_json-same_iff_example :
    (preprocess_json by_default with_url ≡ with_url)
    ↔ ((find_text (codes "//") with_url ≡ none) × (find_text (codes ",}") with_url ≡ none))
preprocess_json-same_iff_example = preprocess_json-same_iff by_default with_url refl refl

abbrev toy_json : Bytes → Result Bytes Json
toy_json s =
    if same s (codes "[[]]") then ok (array (item [] (array end) end)) else err (codes "unexpected")

parse-ok_iff_example :
    (parse toy_json by_default (codes "[[]]") ≡ ok (array (item [] (array end) end))) ↔ (
      (4 ≤ 64)
      × ((toy_json (preprocess_json by_default (codes "[[]]"))
            ≡ ok (array (item [] (array end) end)))
          × (depth (array (item [] (array end) end)) ≤ 1)))
parse-ok_iff_example =
    parse-ok_iff toy_json by_default (codes "[[]]") (array (item [] (array end) end))
