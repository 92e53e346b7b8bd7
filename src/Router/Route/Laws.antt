-- ===== src/Router/Route/Laws.antt =====
-- A dynamic route read from a pattern: which paths it serves, and what the parameters hold.
use foxhttp.Prelude.{
  ◌≡◌, refl, sym, ap, ◌∙◌, subst, ◌≢◌, inl, inr, Option, none, some, List, [], ◌∷◌, ◌++◌, map,
  append-nil, arith, Option-cases, ok, All, Bytes, Lacks, same_iff, same_refl, lookup, insert,
  lookup-insert, is_empty_of_lookup,
}
use mathlib.Core.Option
use foxhttp.Router.Regex
use foxhttp.Router.Regex.{Item, chr, group, compile}
use foxhttp.Router.Regex.Laws.{IsSegment, fill, match_sound, match_complete}
use foxhttp.Router.Pattern.{parse_pattern}
use foxhttp.Router.Pattern.Laws.{Pieces, IsPiece, spell, items_of, names_of, parse_pattern-spell}
use foxhttp.Router.Route.{Params, DynamicRoute, bind_params, extract_path_params, match_dynamic}

-- The path that a pattern's pieces and the values of its parameters spell.
unfoldable pub path_of : Pieces → Bytes → List Bytes → Option Bytes
path_of [] last [] = some last
path_of [] last (v ∷ vs) = none
path_of (p ∷ ps) last [] = none
path_of ((text, name) ∷ ps) last (v ∷ vs) = Option.map (λ s. text ++ (v ++ s)) (path_of ps last vs)

fill-text :
    (text : Bytes) (items : List Item) (vs : List Bytes)
    → fill (map chr text ++ items) vs ≡ Option.map (◌++◌ text) (fill items vs)
unfolding fill
fill-text [] items vs = elim (Option-cases (fill items vs)) [
  | inl q ↦ ground arith
  | inr (s, q) ↦ ground arith
]
fill-text (c ∷ text) items vs = elim (Option-cases (fill items vs)) [
  | inl q ↦ ground (arith, fill-text text items vs)
  | inr (s, q) ↦ ground (arith, fill-text text items vs)
]

fill-items_of :
    (ps : Pieces) (last : Bytes) (vs : List Bytes) → fill (items_of ps last) vs ≡ path_of ps last vs
unfolding path_of fill
fill-items_of [] last [] =
    subst (λ is. fill is [] ≡ some last) (append-nil (map chr last))
      (fill-text last [] [] ∙ ap some (append-nil last))
fill-items_of [] last (v ∷ vs) =
    subst (λ is. fill is (v ∷ vs) ≡ none) (append-nil (map chr last)) (fill-text last [] (v ∷ vs))
fill-items_of ((text, name) ∷ ps) last [] = fill-text text (group ∷ items_of ps last) []
fill-items_of ((text, name) ∷ ps) last (v ∷ vs) = elim (Option-cases (fill (items_of ps last) vs)) [
  | inl q ↦
      ground (arith, fill-text text (group ∷ items_of ps last) (v ∷ vs), fill-items_of ps last vs)
  | inr (s, q) ↦
      ground (arith, fill-text text (group ∷ items_of ps last) (v ∷ vs), fill-items_of ps last vs)
]

lookup-bind_params_other :
    (names captures : List Bytes) (params : Params) (k : Bytes)
    → All (λ n. n ≢ k) names
    → lookup k (bind_params names captures params) ≡ lookup k params
unfolding bind_params
lookup-bind_params_other [] vs params k h = refl
lookup-bind_params_other (n ∷ names) [] params k h = refl
lookup-bind_params_other (n ∷ names) (v ∷ vs) params k (p, h) =
    lookup-bind_params_other names vs (insert n v params) k h
    ∙ ground (arith, lookup-insert n k v params, same_iff n k)

abbrev pub HasDistinct : List Bytes → Type 0
HasDistinct [] = Unit
HasDistinct (n ∷ names) = All (λ m. m ≢ n) names × HasDistinct names

-- Each of the names is bound to the value at its place.
abbrev pub Bound : List Bytes → List Bytes → Params → Type 0
Bound (n ∷ names) (v ∷ vs) params = (lookup n params ≡ some v) × Bound names vs params
Bound names vs params = Unit

bind_params-Bound :
    (names captures : List Bytes) (params : Params)
    → HasDistinct names
    → Bound names captures (bind_params names captures params)
unfolding bind_params
bind_params-Bound [] vs params h = tt
bind_params-Bound (n ∷ names) [] params h = tt
bind_params-Bound (n ∷ names) (v ∷ vs) params (p, h) = (
  lookup-bind_params_other names vs (insert n v params) n p
      ∙ ground (arith, lookup-insert n n v params, same_refl n),
  bind_params-Bound names vs (insert n v params) h,
)

-- A route read from the pattern that the pieces spell.
record IsRead (r : DynamicRoute) (ps : Pieces) (last : Bytes) : Type 0 where
  pub pattern : r.pattern ≡ spell ps last
  pub regex : r.regex ≡ items_of ps last
  pub names : r.param_names ≡ names_of ps

reads :
    (r : DynamicRoute) (ps : Pieces) (last : Bytes)
    → All IsPiece ps
    → Lacks b'{' last
    → r.pattern ≡ spell ps last
    → parse_pattern r.pattern ≡ ok (r.regex, r.param_names)
    → IsRead r ps last
reads r ps last a l s e =
    let same = parse_pattern-spell ps last a l in
    record { pattern = s; regex = cc (ap parse_pattern s); names = cc (ap parse_pattern s) }

-- What a served path tells of its parameters.
pub record IsServed (ps : Pieces) (last path : Bytes) (before after : Params) : Type 0 where
  pub values : List Bytes
  pub spelled : path_of ps last values ≡ some path
  pub segments : All IsSegment values
  pub after_binding : after ≡ extract_path_params (names_of ps) values before

extract-Bound :
    (names captures : List Bytes) (ctx : Params)
    → HasDistinct names
    → Bound names captures (extract_path_params names captures ctx)
unfolding extract_path_params
extract-Bound [] vs ctx h = tt
extract-Bound (n ∷ names) [] ctx h = tt
extract-Bound (n ∷ names) (v ∷ vs) ctx h =
    let all = bind_params-Bound (n ∷ names) (v ∷ vs) [] h in
    rw (is_empty_of_lookup n v (bind_params (n ∷ names) (v ∷ vs) []) all.0) all

module _ (r : DynamicRoute) (ps : Pieces) (last : Bytes) (whole : All IsPiece ps)
    (plain : Lacks b'{' last) (spelled : r.pattern ≡ spell ps last)
    (parsed : parse_pattern r.pattern ≡ ok (r.regex, r.param_names)) (path : Bytes)
    (ctx : Params) where
  -- A path that a route of a pattern serves is the pattern's text with a segment for each parameter:
  -- not empty and without a slash. The segments become the path parameters.
  pub match_dynamic-IsServed :
      (after : Params)
      → match_dynamic r path ctx ≡ (some r.handler, after)
      → IsServed ps last path ctx after
  unfolding match_dynamic
  match_dynamic-IsServed after e =
      let known = reads r ps last whole plain spelled parsed in
      elim (Option-cases (Regex.match r.regex path)) [
        | inl q ↦ absurd (ground arith)
        | inr (vs, q) ↦
            let (f, s) = match_sound (items_of ps last) path vs (rw known.regex at q) in
            let plainly : after ≡ extract_path_params r.param_names vs ctx = ground arith in
            let same : after ≡ extract_path_params (names_of ps) vs ctx =
              rw known.names at plainly in
            record {
              values = vs;
              spelled = sym (fill-items_of ps last vs) ∙ f;
              segments = s;
              after_binding = same;
            }
      ]

  -- Where the names of the pattern differ, each of them then holds its segment of the served path.
  pub match_dynamic-Bound :
      (after : Params)
      → match_dynamic r path ctx ≡ (some r.handler, after)
      → HasDistinct (names_of ps)
      → (values : List Bytes) × ((path_of ps last values ≡ some path)
          × Bound (names_of ps) values after)
  match_dynamic-Bound after e distinct =
      let served = match_dynamic-IsServed after e in
      (
        served.values,
        (
          served.spelled,
          rw served.after_binding (extract-Bound (names_of ps) served.values ctx distinct),
        ),
      )

  -- Conversely every path of that form is served.
  pub match_dynamic-served :
      (vs : List Bytes)
      → path_of ps last vs ≡ some path
      → All IsSegment vs
      → (match_dynamic r path ctx).0 ≡ some r.handler
  unfolding match_dynamic
  match_dynamic-served vs f s =
      let known = reads r ps last whole plain spelled parsed in
      let found = match_complete (items_of ps last) path vs (fill-items_of ps last vs ∙ f) s in
      elim (Option-cases (Regex.match r.regex path)) [
        | inl q ↦ absurd (found (rw known.regex at q))
        | inr (ws, q) ↦ ground arith
      ]
