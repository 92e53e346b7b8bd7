-- ===== src/Tests/RouterTests.antt =====
-- Patterns, a dynamic route and small route tables.
use foxhttp.Prelude.{
  ℕ, ◌≡◌, refl, ◌≢◌, ◌↔◌, ◌⊎◌, none, some, [], ◌∷◌, ◌++◌, map, arith, ok, err, All, Bytes, codes,
  Lacks, lookup, insert,
}
use foxhttp.Router.Regex
use foxhttp.Router.Regex.{Item, chr, group}
use foxhttp.Router.Pattern.{unclosed_parameter, empty_name, parse_pattern}
use foxhttp.Router.Pattern.Laws.{Pieces, IsPiece, spell, items_of, names_of, parse_pattern-spell}
use foxhttp.Router.Pattern.Total.{parse_pattern_total}
use foxhttp.Router.Route.{
  DynamicRoute, match_dynamic, matches_method, extract_path_params, bind_params,
}
use foxhttp.Router.Route.Laws.{path_of, IsServed, match_dynamic-IsServed, match_dynamic-served}
use foxhttp.Router.Table.{
  RouteTable, empty, new_dynamic, add_static_route, resolve_route_with_method, normalize_path,
  ends_with, resolve_dynamic, strip_trailing_slash,
}
use foxhttp.Router.Table.Resolve.{
  IsChosen, resolve-IsChosen, not_found_iff, resolve-add_static_route,
}

nonempty : (x : ℕ) (xs : Bytes) → x ∷ xs ≢ []
nonempty x xs e = cc

-- "/u/{id}"
abbrev pieces : Pieces
pieces = (codes "/u/", codes "id") ∷ []

plain_text : Lacks b'{' (codes "/u/")
plain_text = (ground arith, (ground arith, (ground arith, tt)))

pieces_whole : All IsPiece pieces
pieces_whole = ((plain_text, nonempty b'i' (codes "d"), (ground arith, (ground arith, tt))), tt)

route_parses :
    parse_pattern (codes "/u/{id}") ≡ ok (map chr (codes "/u/") ++ group ∷ [], codes "id" ∷ [])
route_parses = parse_pattern-spell pieces [] pieces_whole tt

parse_pattern-spell_example :
    parse_pattern (codes "/u/{id}") ≡ ok (map chr (codes "/u/") ++ group ∷ [], codes "id" ∷ [])
parse_pattern-spell_example = parse_pattern-spell pieces [] pieces_whole tt

parse_pattern_total_example :
    (parse_pattern (codes "/u/{id") ≡ err unclosed_parameter)
    ⊎ (parse_pattern (codes "/u/{id") ≡ err empty_name)
    ⊎ ((ps : Pieces) × (last : Bytes) × (spell ps last ≡ codes "/u/{id")
        × (parse_pattern (codes "/u/{id") ≡ ok (items_of ps last, names_of ps)))
parse_pattern_total_example = parse_pattern_total (codes "/u/{id")

abbrev route : DynamicRoute
route = new_dynamic (codes "/u/{id}") 1 7 (items_of pieces [], codes "id" ∷ [])

match_dynamic-IsServed_example :
    IsServed pieces [] (codes "/u/42") [] ((codes "id", codes "42") ∷ [])
unfolding match_dynamic extract_path_params Regex.match Regex.grab bind_params insert
match_dynamic-IsServed_example =
    match_dynamic-IsServed route pieces [] pieces_whole tt refl route_parses (codes "/u/42") []
      ((codes "id", codes "42") ∷ []) refl

match_dynamic-served_example : (match_dynamic route (codes "/u/42") []).0 ≡ some 7
unfolding path_of
match_dynamic-served_example =
    match_dynamic-served route pieces [] pieces_whole tt refl route_parses (codes "/u/42") []
      (codes "42" ∷ []) refl ((nonempty b'4' (codes "2"), (ground arith, (ground arith, tt))), tt)

abbrev table : RouteTable
table = record (add_static_route empty (codes "/a") 1 5) { dynamic_routes = route ∷ [] }

resolve-IsChosen_example : IsChosen table (codes "/u/42") 1 [] 7 ((codes "id", codes "42") ∷ [])
unfolding resolve_route_with_method resolve_dynamic strip_trailing_slash ends_with lookup
    matches_method normalize_path extract_path_params Regex.match Regex.grab bind_params insert
    add_static_route
resolve-IsChosen_example =
    resolve-IsChosen table (codes "/u/42/") 1 [] 7 [] ((codes "id", codes "42") ∷ []) refl

not_found_iff_example : (resolve_route_with_method table (codes "/b") 1 [] ≡ (none, [], [])) ↔ (
    (lookup (normalize_path (codes "/b")) table.static_routes ≡ none)
    × All (λ r. Regex.match r.regex (normalize_path (codes "/b")) ≡ none) (route ∷ []))
not_found_iff_example = not_found_iff table (codes "/b") 1 []

resolve-add_static_route_example :
    resolve_route_with_method (add_static_route table (codes "/a") 2 9) (codes "/a/") 2 []
    ≡ (some 9, [], [])
unfolding normalize_path matches_method
resolve-add_static_route_example =
    resolve-add_static_route table (codes "/a") (codes "/a/") 2 2 9 []
