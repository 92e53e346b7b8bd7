-- ===== src/Tests/ParserTests.antt =====
-- Small forms and texts.
use foxhttp.Prelude.{
  ◌≤◌, ◌≡◌, ◌↔◌, true, false, List, [], ◌∷◌, arith, ok, All, Bytes, codes, lookup,
}
use foxhttp.Url.{url_encode}
use foxhttp.Parser.Form.{FormConfig, FormField, parse}
use foxhttp.Parser.Form.Laws.{parse-render, IsPair, render, expected}
use foxhttp.Parser.Form.Errors.{Fits, parse_ok_iff}
use foxhttp.Parser.PlainText.Utf8.{}

abbrev limits : FormConfig
limits = record { max_field_size = 8; max_total_size = 64; max_fields = 2; support_arrays = true }

-- "a[]=%26&a=x"
abbrev pairs : List (Bytes × Bytes)
pairs = (codes "a[]", codes "&") ∷ (codes "a", codes "x") ∷ []

pairs_are_pairs : All (IsPair limits) pairs
unfolding url_encode
pairs_are_pairs = (
  (
    ((omega arith, (omega arith, (omega arith, tt))), omega arith),
    ((omega arith, tt), omega arith),
  ),
  ((((omega arith, tt), omega arith), ((omega arith, tt), omega arith)), tt),
)

parse-render_example :
    (fields : List (Bytes × FormField)) × ((parse limits (render pairs) ≡ ok fields)
      × ((k : Bytes) → lookup k fields ≡ expected limits k pairs))
unfolding url_encode
parse-render_example = parse-render limits pairs pairs_are_pairs (omega arith)

parse_ok_iff_example :
    ((fields : List (Bytes × FormField)) × (parse limits (codes "a=b") ≡ ok fields))
    ↔ ((3 ≤ 64) × All (Fits limits) (codes "a=b" ∷ []))
parse_ok_iff_example = parse_ok_iff limits (codes "a=b")

abbrev field : FormField
field = record { name = codes "a"; values = codes "b" ∷ []; is_array = false }

-- "a\r\n\rb"
abbrev lines : Bytes
lines = b'a' ∷ 13 ∷ 10 ∷ 13 ∷ b'b' ∷ []
