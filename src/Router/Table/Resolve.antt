-- ===== src/Router/Table/Resolve.antt =====
-- What resolution answers: which route, which parameters, and when 404 or 405.
use foxhttp.Prelude.{
  ◌≡◌, refl, ap, ◌∙◌, ◌≢◌, ◌↔◌, inl, inr, true, false, none, some, List, [], ◌∷◌, arith,
  if◌then◌else◌, Bool-cases, Option-cases, All, Bytes, same, same_refl, lookup, lookup-insert,
}
use foxhttp.Router.Regex
use foxhttp.Router.Route.{
  Verb, unknown, Handler, Params, StaticRoute, DynamicRoute, matches_method, extract_path_params,
}
use foxhttp.Router.Table.{
  RouteTable, normalize_path, add_static_route, allowed, resolve_dynamic, resolve_route_with_method,
  resolve_route, Resolution,
}

-- The first dynamic route that matches the path.
pub data FirstMatch (key : Bytes) (r : DynamicRoute) (captures : List Bytes)
    : List DynamicRoute → Type 0 where
  here :
      {rs : List DynamicRoute}
      → Regex.match r.regex key ≡ some captures
      → FirstMatch key r captures (r ∷ rs)
  later :
      {x : DynamicRoute} {rs : List DynamicRoute}
      → Regex.match x.regex key ≡ none
      → FirstMatch key r captures rs
      → FirstMatch key r captures (x ∷ rs)

-- How a handler was chosen: by the static route of the path, or, where the path has none, by the
-- first dynamic route that matches it, with the captures as the path parameters.
pub data IsChosen (t : RouteTable) (key : Bytes) (method : Verb) (ctx : Params) (h : Handler)
    (after : Params) : Type 0 where
  by_static :
      (r : StaticRoute)
      → lookup key t.static_routes ≡ some r
      → matches_method r.method method ≡ true
      → r.handler ≡ h
      → after ≡ ctx
      → IsChosen t key method ctx h after
  by_dynamic :
      (r : DynamicRoute) (captures : List Bytes)
      → lookup key t.static_routes ≡ none
      → FirstMatch key r captures t.dynamic_routes
      → matches_method r.method method ≡ true
      → r.handler ≡ h
      → after ≡ extract_path_params r.param_names captures ctx
      → IsChosen t key method ctx h after

module _ (key : Bytes) (method : Verb) (ctx : Params) (h : Handler) (vs : List Verb)
    (after : Params) where
  resolve_dynamic-FirstMatch :
      (rs : List DynamicRoute)
      → resolve_dynamic rs key method ctx ≡ (some h, vs, after)
      → (r : DynamicRoute) × (captures : List Bytes) × FirstMatch key r captures rs
        × (matches_method r.method method ≡ true)
        × (r.handler ≡ h)
        × (after ≡ extract_path_params r.param_names captures ctx)
  unfolding resolve_dynamic
  resolve_dynamic-FirstMatch [] e = absurd (ground arith)
  resolve_dynamic-FirstMatch (r ∷ rs) e = elim (Option-cases (Regex.match r.regex key)) [
    | inl q ↦
        let (x, captures, f, m, same_h, bound) = resolve_dynamic-FirstMatch rs (ground arith) in
        (x, captures, later q f, m, same_h, bound)
    | inr (captures, q) ↦ elim (Bool-cases (matches_method r.method method)) [
      | inl m ↦ (r, captures, here q, m, ground arith, ground arith)
      | inr m ↦ absurd (ground arith)
    ]
  ]

-- A handler is found by the static route of the normalised path, or by the first dynamic route that
-- matches it; the route fits the verb, and the captures become the path parameters.
pub resolve-IsChosen :
    (t : RouteTable) (path : Bytes) (method : Verb) (ctx : Params) (h : Handler) (vs : List Verb)
    (after : Params)
    → resolve_route_with_method t path method ctx ≡ (some h, vs, after)
    → IsChosen t (normalize_path path) method ctx h after
unfolding resolve_route_with_method
resolve-IsChosen t path method ctx h vs after e =
    elim (Option-cases (lookup (normalize_path path) t.static_routes)) [
      | inr (r, q) ↦ elim (Bool-cases (matches_method r.method method)) [
        | inl m ↦ by_static r q m (ground arith) (ground arith)
        | inr m ↦ absurd (ground arith)
      ]
      | inl q ↦
          let (r, captures, f, m, same_h, bound) =
            resolve_dynamic-FirstMatch (normalize_path path) method ctx h vs after t.dynamic_routes
              (ground arith) in
          by_dynamic r captures q f m same_h bound
    ]

allowed-ne-nil : (own method : Verb) → matches_method own method ≡ false → allowed own ≢ []
unfolding matches_method allowed
allowed-ne-nil own method m = ground arith

resolve_dynamic-missed_iff :
    (rs : List DynamicRoute) (key : Bytes) (method : Verb) (ctx : Params)
    → (resolve_dynamic rs key method ctx ≡ (none, [], ctx))
      ↔ All (λ r. Regex.match r.regex key ≡ none) rs
unfolding resolve_dynamic
resolve_dynamic-missed_iff [] key method ctx = (λ _. tt, λ _. refl)
resolve_dynamic-missed_iff (r ∷ rs) key method ctx =
    ground (arith, resolve_dynamic-missed_iff rs key method ctx, allowed-ne-nil r.method method)

-- The answer "not found, and no verb allowed" is given exactly for a path that has no static route
-- and that no dynamic route matches.
pub not_found_iff :
    (t : RouteTable) (path : Bytes) (method : Verb) (ctx : Params)
    → (resolve_route_with_method t path method ctx ≡ (none, [], ctx)) ↔ (
        (lookup (normalize_path path) t.static_routes ≡ none)
        × All (λ r. Regex.match r.regex (normalize_path path) ≡ none) t.dynamic_routes)
unfolding resolve_route_with_method
not_found_iff t path method ctx =
    elim (Option-cases (lookup (normalize_path path) t.static_routes)) [
      | inl q ↦
          ground
            (arith, resolve_dynamic-missed_iff t.dynamic_routes (normalize_path path) method ctx)
      | inr (r, q) ↦ ground (arith, allowed-ne-nil r.method method)
    ]

-- After a static route is registered, its path answers by that route alone, whatever was there
-- before; every other path answers as before.
pub resolve-add_static_route :
    (t : RouteTable) (path other : Bytes) (own method : Verb) (h : Handler) (ctx : Params)
    → resolve_route_with_method (add_static_route t path own h) other method ctx ≡ (
        if same (normalize_path path) (normalize_path other)
        then if matches_method own method then (some h, [], ctx) else (none, allowed own, ctx)
        else resolve_route_with_method t other method ctx)
unfolding resolve_route_with_method add_static_route
resolve-add_static_route t path other own method h ctx = ground (
  arith,
  lookup-insert (normalize_path path) (normalize_path other)
      (record { pattern = normalize_path path; handler = h; method = own }) t.static_routes,
)

-- Registering a second verb for a static path loses the first: the first verb is then answered by
-- "method not allowed", with the second verb as the only allowed one.
pub second_verb_overwrites :
    (t : RouteTable) (path : Bytes) (first second : Verb) (h k : Handler) (ctx : Params)
    → first ≢ second
    → second ≢ unknown
    → resolve_route_with_method
        (add_static_route (add_static_route t path first h) path second k)
        path
        first
        ctx
      ≡ (none, second ∷ [], ctx)
unfolding matches_method allowed
second_verb_overwrites t path first second h k ctx p q =
    rw
      (
        resolve-add_static_route (add_static_route t path first h) path path second first k ctx,
        same_refl (normalize_path path),
      )
      (ground arith)

-- `resolve_route` finds no static route that was registered for a verb of its own.
pub resolve_route-of_verb :
    (t : RouteTable) (path : Bytes) (own : Verb) (h : Handler) (ctx : Params)
    → own ≢ unknown
    → resolve_route (add_static_route t path own h) path ctx ≡ none
unfolding resolve_route matches_method allowed
resolve_route-of_verb t path own h ctx p =
    ap (λ (x : Resolution). x.0) (resolve-add_static_route t path path own unknown h ctx)
    ∙ ground (arith, same_refl (normalize_path path))
