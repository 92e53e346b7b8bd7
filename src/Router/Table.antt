-- ===== src/Router/Table.antt =====
-- `RouteTable` of src/router/route_table.cpp: registration, the order of the dynamic routes, and
-- resolution with the verbs of a 405 answer.
pub mod Order
pub mod Resolve
pub mod Normalize
use foxhttp.Prelude.{
  ℕ, zero, suc, ◌-◌, Bool, true, false, ◌&&◌, not, Option, none, some, List, [], ◌∷◌, ◌++◌, Bytes,
  codes, length, take, lookup, insert, is_empty, ◌==◌, ltb, if◌then◌else◌, Result, ok, err,
}
use foxhttp.Prelude.Sort.{sort_by}
use foxhttp.Router.Regex
use foxhttp.Router.Pattern.{PatternError, parse_pattern}
use foxhttp.Router.Route.{
  Verb, unknown, Handler, Params, StaticRoute, DynamicRoute, matches_method, extract_path_params,
}

pub data Route : Type 0 where
  static_route : StaticRoute → Route
  dynamic_route : DynamicRoute → Route

pub record RouteTable : Type 0 where
  pub static_routes : List (Bytes × StaticRoute)
  pub dynamic_routes : List DynamicRoute
  pub all_routes : List Route

abbrev pub empty : RouteTable
empty = record { static_routes = []; dynamic_routes = []; all_routes = [] }

unfoldable pub ends_with : ℕ → Bytes → Bool
ends_with c [] = false
ends_with c (x ∷ []) = x == c
ends_with c (x ∷ y ∷ s) = ends_with c (y ∷ s)

unfoldable pub strip_trailing_slash : Bytes → Bytes
unfolding ends_with
strip_trailing_slash s = if ltb 1 (length s) && ends_with b'/' s then take (length s - 1) s else s

unfoldable pub normalize_path : Bytes → Bytes
unfolding strip_trailing_slash
normalize_path [] = codes "/"
normalize_path (c ∷ s) = strip_trailing_slash (if c == b'/' then c ∷ s else b'/' ∷ c ∷ s)

-- `inside` is true between the start of a segment and the next '/'.
unfoldable pub segments_from : Bool → Bytes → ℕ
segments_from inside [] = 0
segments_from true (c ∷ s) = segments_from (not (c == b'/')) s
segments_from false (c ∷ s) =
    let skip = segments_from false s in
    let start = suc (segments_from true s) in if c == b'/' then skip else start

unfoldable pub count_segments : Bytes → ℕ
unfolding segments_from
count_segments path = segments_from false path

-- `a < b` on strings.
unfoldable pub less : Bytes → Bytes → Bool
less s [] = false
less [] (y ∷ t) = true
less (x ∷ s) (y ∷ t) = if x == y then less s t else ltb x y

abbrev pub specificity : DynamicRoute → ℕ
specificity r = count_segments r.pattern - length r.param_names

-- The comparison that `std::sort` is called with.
unfoldable pub before : DynamicRoute → DynamicRoute → Bool
before a b =
    if not (specificity a == specificity b)
    then ltb (specificity b) (specificity a)
    else if not (count_segments a.pattern == count_segments b.pattern)
    then ltb (count_segments b.pattern) (count_segments a.pattern)
    else less a.pattern b.pattern

unfoldable pub add_static_route : RouteTable → Bytes → Verb → Handler → RouteTable
add_static_route t path method handler =
    let route : StaticRoute = record {
      pattern = normalize_path path;
      handler = handler;
      method = method;
    } in
    record t {
      static_routes = insert (normalize_path path) route t.static_routes;
      all_routes = t.all_routes ++ static_route route ∷ [];
    }

abbrev pub new_dynamic : Bytes → Verb → Handler → List Regex.Item × List Bytes → DynamicRoute
new_dynamic pattern method handler (regex, names) = record {
  pattern = pattern;
  handler = handler;
  regex = regex;
  param_names = names;
  method = method;
}

abbrev pub with_dynamic : RouteTable → DynamicRoute → RouteTable
with_dynamic t r = record t {
  dynamic_routes = sort_by before (t.dynamic_routes ++ r ∷ []);
  all_routes = t.all_routes ++ dynamic_route r ∷ [];
}

-- A pattern that cannot be read leaves the table as it was, and is thrown.
unfoldable pub add_dynamic_route :
    RouteTable → Bytes → Verb → Handler → Result PatternError RouteTable
add_dynamic_route t pattern method handler = elim (parse_pattern pattern) [
  | err e ↦ err e
  | ok parsed ↦ ok (with_dynamic t (new_dynamic pattern method handler parsed))
]

abbrev pub Resolution : Type 0
Resolution = Option Handler × List Verb × Params

-- The verb of a route whose path fits and whose method does not.
unfoldable pub allowed : Verb → List Verb
allowed method = if method == unknown then [] else method ∷ []

-- The loop over the dynamic routes, which ends with the first one that matches the path.
unfoldable pub resolve_dynamic : List DynamicRoute → Bytes → Verb → Params → Resolution
unfolding allowed
resolve_dynamic [] key method ctx = (none, [], ctx)
resolve_dynamic (r ∷ rs) key method ctx = elim (Regex.match r.regex key) [
  | none ↦ resolve_dynamic rs key method ctx
  | some captures ↦
      if matches_method r.method method
      then (some r.handler, [], extract_path_params r.param_names captures ctx)
      else (none, allowed r.method, ctx)
]

unfoldable pub resolve_route_with_method : RouteTable → Bytes → Verb → Params → Resolution
unfolding allowed
resolve_route_with_method t path method ctx = elim (lookup (normalize_path path) t.static_routes) [
  | none ↦ resolve_dynamic t.dynamic_routes (normalize_path path) method ctx
  | some r ↦
      if matches_method r.method method
      then (some r.handler, [], ctx)
      else (none, allowed r.method, ctx)
]

unfoldable pub resolve_route : RouteTable → Bytes → Params → Option Handler
resolve_route t path ctx = (resolve_route_with_method t path unknown ctx).0

abbrev pub static_route_count : RouteTable → ℕ
static_route_count t = length t.static_routes

abbrev pub dynamic_route_count : RouteTable → ℕ
dynamic_route_count t = length t.dynamic_routes

abbrev pub clear : RouteTable → RouteTable
clear t = record { static_routes = []; dynamic_routes = []; all_routes = [] }
