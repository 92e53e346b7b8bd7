-- ===== src/Router/Named/Laws.antt =====
-- Who asks for a named table again.
use foxhttp.Prelude.{
  ℕ, ◌≡◌, refl, sym, ap, ◌∙◌, subst, ◌≢◌, inl, inr, false, not, Option, none, some, List, [], ◌∷◌,
  ◌++◌, arith, Bool-cases, Option-cases, Result-cases, ok, err, get_elem?, length, keep, All, Bytes,
  same, same_iff, same_refl, lookup, insert, lookup-insert,
}
use foxhttp.Router.Route.{Verb, Handler}
use foxhttp.Router.Table.{empty, clear, add_dynamic_route}
use foxhttp.Router.Named.{
  Tables, instance_of, remove_instance, new_router, router_add_static, router_add_dynamic, on_table,
  create_detached,
}

-- The calls on the tables and the routers. A dynamic route whose pattern cannot be read throws.
pub data TableCall : Type 0 where
  asks removes : Bytes → TableCall
  makes : Option ℕ → TableCall
  routes routes_dynamic : ℕ → Bytes → Verb → Handler → TableCall
  clears : ℕ → TableCall

abbrev pub run_call : TableCall → Tables → Tables
run_call (asks name) s = (instance_of name s).0
run_call (removes name) s = (remove_instance name s).0
run_call (makes table) s = (new_router table s).0
run_call (routes router path method handler) s = router_add_static router path method handler s
run_call (routes_dynamic router pattern method handler) s =
    elim (router_add_dynamic router pattern method handler s) [ err e ↦ s | ok t ↦ t ]
run_call (clears router) s = on_table router clear s

abbrev pub run_calls : List TableCall → Tables → Tables
run_calls [] s = s
run_calls (c ∷ cs) s = run_calls cs (run_call c s)

abbrev pub Keeps : Bytes → TableCall → Type 0
Keeps name (asks other) = Unit
Keeps name (removes other) = other ≢ name
Keeps name (makes table) = Unit
Keeps name (routes router path method handler) = Unit
Keeps name (routes_dynamic router pattern method handler) = Unit
Keeps name (clears router) = Unit

abbrev IsNamed : Bytes → ℕ → Tables → Type 0
IsNamed name i s = lookup name s.named_instances ≡ some i

instance_of-found :
    (name : Bytes) (i : ℕ) (s : Tables) → IsNamed name i s → instance_of name s ≡ (s, i)
unfolding instance_of
instance_of-found name i s e = rw (instance_of, e) refl

instance_of-new :
    (name : Bytes) (s : Tables)
    → lookup name s.named_instances ≡ none
    → instance_of name s ≡ (
      record s {
        tables = s.tables ++ empty ∷ [];
        named_instances = insert name (length s.tables) s.named_instances;
      },
      length s.tables,
    )
unfolding instance_of create_detached
instance_of-new name s e = rw (instance_of, e) refl

instance_of-IsNamed :
    (name : Bytes) (s : Tables) → IsNamed name (instance_of name s).1 (instance_of name s).0
instance_of-IsNamed name s = elim (Option-cases (lookup name s.named_instances)) [
  | inl e ↦
      let there = lookup-insert name name (length s.tables) s.named_instances in
      subst (λ r. IsNamed name r.1 r.0) (sym (instance_of-new name s e))
        (there ∙ rw (same_refl name) refl)
  | inr (i, e) ↦ subst (λ r. IsNamed name r.1 r.0) (sym (instance_of-found name i s e)) e
]

lookup-keep :
    (name other : Bytes) (m : List (Bytes × ℕ))
    → other ≢ name
    → lookup name (keep (λ e. not (same e.0 other)) m) ≡ lookup name m
unfolding lookup
lookup-keep name other [] h = refl
lookup-keep name other ((k, i) ∷ m) h =
    ground (arith, same_iff k other, same_iff k name, lookup-keep name other m h)

missing_is_other :
    (name other : Bytes) (i : ℕ) (s : Tables)
    → IsNamed name i s
    → lookup other s.named_instances ≡ none
    → same other name ≡ false
missing_is_other name other i s e q = elim (Bool-cases (same other name)) [
  | inl t ↦
      let missing : lookup name s.named_instances ≡ none =
        ap (λ n. lookup n s.named_instances) (sym ((same_iff other name).0 t)) ∙ q in
      absurd (cc)
  | inr f ↦ f
]

asked-IsNamed :
    (name other : Bytes) (i : ℕ) (s : Tables)
    → IsNamed name i s
    → IsNamed name i (instance_of other s).0
asked-IsNamed name other i s e = elim (Option-cases (lookup other s.named_instances)) [
  | inr (j, q) ↦ subst (λ r. IsNamed name i r.0) (sym (instance_of-found other j s q)) e
  | inl q ↦
      let there = lookup-insert other name (length s.tables) s.named_instances in
      subst (λ r. IsNamed name i r.0) (sym (instance_of-new other s q))
        (there ∙ rw (missing_is_other name other i s e q) e)
]

dynamic-IsNamed :
    (name : Bytes) (i router : ℕ) (pattern : Bytes) (method : Verb) (handler : Handler) (s : Tables)
    → IsNamed name i s
    → IsNamed name i (run_call (routes_dynamic router pattern method handler) s)
unfolding router_add_dynamic
dynamic-IsNamed name i router pattern method handler s e =
    elim (Option-cases (get_elem? s.tables router)) [
      | inl q ↦ rw (run_call, router_add_dynamic, q) e
      | inr (t, q) ↦ elim (Result-cases (add_dynamic_route t pattern method handler)) [
        | inr (x, p) ↦ rw (run_call, router_add_dynamic, q, p) e
        | inl (u, p) ↦ rw (run_call, router_add_dynamic, q, p) e
      ]
    ]

run_call-IsNamed :
    (name : Bytes) (i : ℕ) (c : TableCall) (s : Tables)
    → Keeps name c
    → IsNamed name i s
    → IsNamed name i (run_call c s)
unfolding remove_instance new_router create_detached router_add_static
run_call-IsNamed name i (asks other) s k e = asked-IsNamed name other i s e
run_call-IsNamed name i (removes other) s k e = lookup-keep name other s.named_instances k ∙ e
run_call-IsNamed name i (makes none) s k e = e
run_call-IsNamed name i (makes (some table)) s k e = e
run_call-IsNamed name i (routes router path method handler) s k e = e
run_call-IsNamed name i (routes_dynamic router pattern method handler) s k e =
    dynamic-IsNamed name i router pattern method handler s e
run_call-IsNamed name i (clears router) s k e = e

run_calls-IsNamed :
    (name : Bytes) (i : ℕ) (cs : List TableCall) (s : Tables)
    → All (Keeps name) cs
    → IsNamed name i s
    → IsNamed name i (run_calls cs s)
run_calls-IsNamed name i [] s k e = e
run_calls-IsNamed name i (c ∷ cs) s k e =
    run_calls-IsNamed name i cs (run_call c s) k.1 (run_call-IsNamed name i c s k.0 e)

-- Whoever asks for a name again gets the table that it was first given, whatever was asked for, made,
-- removed, routed (static or dynamic, with a pattern that can be read or not) or cleared in between,
-- unless the name itself was removed.
pub instance_of-kept :
    (name : Bytes) (cs : List TableCall) (s : Tables)
    → All (Keeps name) cs
    → (let (after, table) = instance_of name s in
        instance_of name (run_calls cs after) ≡ (run_calls cs after, table))
instance_of-kept name cs s k =
    let (after, table) = instance_of name s in
    instance_of-found name table (run_calls cs after)
      (run_calls-IsNamed name table cs after k (instance_of-IsNamed name s))
