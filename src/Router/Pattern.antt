-- ===== src/Router/Pattern.antt =====
-- `RouteBuilder` of src/router/route.cpp: a pattern such as "/users/{id}" becomes a regular
-- expression and the names of its parameters.
pub mod Laws
pub mod Total
use foxhttp.Prelude.{
  ℕ, zero, suc, ◌+◌, ◌-◌, Bool, Option, none, some, List, [], ◌∷◌, ◌++◌, Bytes, codes, has, find,
  take, drop, length, is_empty, if◌then◌else◌, Result, ok, err,
}
use foxhttp.Router.Regex.{Item, compile, plain, specials, backslash, segment_group}

pub data PatternError : Type 0 where
  unclosed_parameter empty_name regex_error out_of_fuel : PatternError

unfoldable pub regex_escape : Bytes → Bytes
regex_escape [] = []
regex_escape (c ∷ s) = if has c specials then backslash ∷ c ∷ regex_escape s else c ∷ regex_escape s

-- One round of the loop from `start` on; `rest` is `pattern.substr(start)`.
unfoldable pub parse_from :
    ℕ → Bytes → Bytes → List Bytes → Result PatternError (Bytes × List Bytes)
parse_from zero rest regex names = err out_of_fuel
parse_from (suc fuel) rest regex names = elim (find b'{' rest) [
  | none ↦ ok (regex ++ regex_escape rest, names)
  | some pos ↦ elim (find b'}' (drop pos rest)) [
    | none ↦ err unclosed_parameter
    | some len ↦
        let name = take (len - 1) (drop (pos + 1) rest) in
        let next =
          parse_from fuel (drop (pos + len + 1) rest)
            ((regex ++ regex_escape (take pos rest)) ++ segment_group) (names ++ name ∷ []) in
        if is_empty name then err empty_name else next
  ]
]

-- `{std::regex("^" + regex_pattern + "$"), param_names}`; the compiler sees the text behind "^".
finish : Result PatternError (Bytes × List Bytes) → Result PatternError (List Item × List Bytes)
finish (err e) = err e
finish (ok (regex, names)) = elim (compile plain (regex ++ codes "$")) [
  | none ↦ err regex_error
  | some items ↦ ok (items, names)
]

unfoldable pub parse_pattern : Bytes → Result PatternError (List Item × List Bytes)
unfolding finish
parse_pattern pattern = finish (parse_from (suc (length pattern)) pattern [] [])
