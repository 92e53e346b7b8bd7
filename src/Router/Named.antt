-- ===== src/Router/Named.antt =====
-- The named tables of `RouteTable` (src/router/route_table.cpp) and the facade `Router`
-- (src/router/router.cpp). A table is known by its place in the list of all tables that were made;
-- whoever holds the place sees the routes that others add.
pub mod Laws
use foxhttp.Prelude.{
  ℕ, zero, suc, ◌+◌, ◌-◌, ◌*◌, ◌/◌, ◌%◌, ◌^◌, ◌≤◌, ◌<◌, ◌≡◌, refl, sym, ap, ◌∙◌, subst, ◌≢◌, ◌↔◌,
  ◌⊎◌, inl, inr, Bool, true, false, ◌&&◌, ◌||◌, not, Option, none, some, List, [], ◌∷◌, ◌++◌, map,
  append-nil, append_assoc, arith, ltb, leb, ◌==◌, if◌then◌else◌, ltb→lt, lt→ltb, leb→le, le→leb,
  ==_iff, ==_refl, ne→==, tests, Bool-cases, Option-cases, Result, ok, err, Result-cases, length,
  get_elem?, take, drop, is_empty, keep, length-append, take-append-drop, length-drop,
  take-length-append, drop-length-append, drop-add, drop-past, All, All-append, Bytes, codes, same,
  find, has, starts_with, Lacks, same_iff, same_refl, find-append, find-eq-none, find-lt-length,
  find-Lacks, find_split, drop_at, lookup, insert, lookup-insert, is_empty_of_lookup, lookup-nil,
  getlines, begin_line, has_suffix, is_space, is_alnum, hex_value, hex_digit, stream_hex, stoi_hex,
  hex_value-hex_digit, getlines-append, getlines-one, between, join, IsLine, getlines-join,
  drop_behind, is_empty-append, ne_of_same, find_text, trim_front_by, trim_back_by, to_string,
}
use foxhttp.Router.Pattern.{PatternError}
use foxhttp.Router.Route.{Verb, unknown, Handler, Params}
use foxhttp.Router.Table.{
  RouteTable, empty, Resolution, add_static_route, add_dynamic_route, resolve_route_with_method,
  resolve_route,
}

pub record Tables : Type 0 where
  pub tables : List RouteTable
  pub named_instances : List (Bytes × ℕ)

unfoldable pub create_detached : Tables → Tables × ℕ
create_detached s = (record s { tables = s.tables ++ empty ∷ [] }, length s.tables)

-- `instance(name)`.
unfoldable pub instance_of : Bytes → Tables → Tables × ℕ
unfolding create_detached
instance_of name s = elim (lookup name s.named_instances) [
  | some i ↦ (s, i)
  | none ↦
      let (made, i) = create_detached s in
      (record made { named_instances = insert name i s.named_instances }, i)
]

unfoldable pub remove_instance : Bytes → Tables → Tables × Bool
remove_instance name s = (
  record s { named_instances = keep (λ e. not (same e.0 name)) s.named_instances },
  elim (lookup name s.named_instances) [ none ↦ false | some i ↦ true ],
)

abbrev pub get_instance_names : Tables → List Bytes
get_instance_names s = map (λ e. e.0) s.named_instances

-- A router is the table it was given, or one of its own.
unfoldable pub new_router : Option ℕ → Tables → Tables × ℕ
unfolding create_detached
new_router none s = create_detached s
new_router (some table) s = (s, table)

abbrev pub change_at : ℕ → (RouteTable → RouteTable) → List RouteTable → List RouteTable
change_at i f [] = []
change_at zero f (t ∷ ts) = f t ∷ ts
change_at (suc i) f (t ∷ ts) = t ∷ change_at i f ts

abbrev pub on_table : ℕ → (RouteTable → RouteTable) → Tables → Tables
on_table router f s = record s { tables = change_at router f s.tables }

unfoldable pub router_add_static : ℕ → Bytes → Verb → Handler → Tables → Tables
unfolding add_static_route
router_add_static router path method handler =
    on_table router (λ t. add_static_route t path method handler)

-- A pattern that cannot be parsed throws, and leaves the table as it was.
unfoldable pub router_add_dynamic : ℕ → Bytes → Verb → Handler → Tables → Result PatternError Tables
unfolding add_dynamic_route
router_add_dynamic router pattern method handler s = elim (get_elem? s.tables router) [
  | none ↦ ok s
  | some t ↦ elim (add_dynamic_route t pattern method handler) [
    | err e ↦ err e
    | ok after ↦ ok (on_table router (λ _. after) s)
  ]
]

unfoldable pub resolver_with_method : ℕ → Bytes → Verb → Params → Tables → Option Resolution
unfolding resolve_route_with_method
resolver_with_method router path method ctx s = elim (get_elem? s.tables router) [
  | none ↦ none
  | some t ↦ some (resolve_route_with_method t path method ctx)
]

unfoldable pub resolver : ℕ → Bytes → Params → Tables → Option Handler
unfolding resolve_route
resolver router path ctx s = elim (get_elem? s.tables router) [
  | none ↦ none
  | some t ↦ resolve_route t path ctx
]
