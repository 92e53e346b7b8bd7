-- ===== src/Router/Route.antt =====
-- `StaticRoute` and `DynamicRoute` of src/router/route.cpp. Handlers and HTTP verbs are numbers,
-- with 0 for `verb::unknown`; of the request context a route writes the path parameters only.
pub mod Laws
use foxhttp.Prelude.{
  ℕ, Bool, Option, none, some, List, [], ◌∷◌, Bytes, same, insert, is_empty, ◌==◌, ◌||◌,
  if◌then◌else◌,
}
use foxhttp.Router.Regex
use foxhttp.Router.Regex.{Item}

abbrev pub Verb : Type 0
Verb = ℕ

abbrev pub unknown : Verb
unknown = 0

abbrev pub Handler : Type 0
Handler = ℕ

abbrev pub Params : Type 0
Params = List (Bytes × Bytes)

pub record StaticRoute : Type 0 where
  pub pattern : Bytes
  pub handler : Handler
  pub method : Verb

pub record DynamicRoute : Type 0 where
  pub pattern : Bytes
  pub handler : Handler
  pub regex : List Item
  pub param_names : List Bytes
  pub method : Verb

-- `matches_method` of both classes, over the route's `method_`.
unfoldable pub matches_method : Verb → Verb → Bool
matches_method own method = own == unknown || own == method

unfoldable pub match_static : StaticRoute → Bytes → Option Handler
match_static r path = if same path r.pattern then some r.handler else none

-- The loop over the captures, which ends with the shorter list.
unfoldable pub bind_params : List Bytes → List Bytes → Params → Params
bind_params (name ∷ names) (v ∷ captures) params = bind_params names captures (insert name v params)
bind_params names captures params = params

unfoldable pub extract_path_params : List Bytes → List Bytes → Params → Params
extract_path_params names captures ctx =
    let params = bind_params names captures [] in if is_empty params then ctx else params

unfoldable pub match_dynamic : DynamicRoute → Bytes → Params → Option Handler × Params
match_dynamic r path ctx = elim (Regex.match r.regex path) [
  | none ↦ (none, ctx)
  | some captures ↦ (some r.handler, extract_path_params r.param_names captures ctx)
]
