-- ===== src/Tests/NamedTests.antt =====
-- Two requests for one named table.
use foxhttp.Prelude.{ℕ, ◌≡◌, refl, none, List, [], ◌∷◌, codes, lookup, insert, ne_of_same}
use foxhttp.Router.Route.{unknown}
use foxhttp.Router.Named.{Tables, instance_of}
use foxhttp.Router.Named.Laws.{
  TableCall, asks, removes, makes, routes, routes_dynamic, clears, run_calls, instance_of-kept,
}

abbrev no_tables : Tables
no_tables = record { tables = []; named_instances = [] }

abbrev between_calls : List TableCall
between_calls =
    asks (codes "b")
    ∷ routes 0 (codes "/x") unknown 7
    ∷ routes_dynamic 0 (codes "/u/{id}") unknown 8
    ∷ clears 0
    ∷ makes none
    ∷ removes (codes "b")
    ∷ []

abbrev first : Tables × ℕ
first = instance_of (codes "a") no_tables

instance_of-kept_example :
    instance_of (codes "a") (run_calls between_calls first.0)
    ≡ (run_calls between_calls first.0, first.1)
instance_of-kept_example =
    instance_of-kept (codes "a") between_calls no_tables
      (tt, (tt, (tt, (tt, (tt, (ne_of_same _ _ refl, tt))))))

-- Another name gets another table.
other_table : (instance_of (codes "b") first.0).1 ≡ 1
unfolding instance_of lookup insert
other_table = refl
