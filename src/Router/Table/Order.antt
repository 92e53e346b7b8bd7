-- ===== src/Router/Table/Order.antt =====
-- The comparison of dynamic routes is what `std::sort` requires, and keeps them sorted.
use foxhttp.Prelude.{ℕ, ◌-◌, ◌<◌, ◌⊎◌, length, ◌≡◌, refl, false, List, [], ◌∷◌, Bytes, arith, ok}
use mathlib.Core.List.{Perm}
use foxhttp.Prelude.Sort.{IsOrdered}
use foxhttp.Router.Regex.{Item}
use foxhttp.Router.Pattern.{parse_pattern}
use foxhttp.Router.Route.{DynamicRoute, Verb, Handler}
use foxhttp.Router.Table.{count_segments, less, before, RouteTable, new_dynamic}

-- Texts that neither comes before are equal.
less_total : (s t : Bytes) → less s t ≡ false → less t s ≡ false → s ≡ t
unfolding less
less_total [] [] p q = refl
less_total [] (y ∷ t) p q = cc
less_total (x ∷ s) [] p q = cc
less_total (x ∷ s) (y ∷ t) p q = ground (arith, less_total s t)

before_total :
    (a b : DynamicRoute) → before a b ≡ false → before b a ≡ false → a.pattern ≡ b.pattern
unfolding before
before_total a b p q = ground (arith, less_total a.pattern b.pattern)

-- The order of texts by their first different byte, a text behind its prefixes.
abbrev pub LexLe : Bytes → Bytes → Type 0
LexLe [] t = Unit
LexLe (x ∷ s) [] = ⊥
LexLe (x ∷ s) (y ∷ t) = (x < y) ⊎ ((x ≡ y) × LexLe s t)

-- The segments of a route that are no parameters.
abbrev pub fixed_segments : DynamicRoute → ℕ
fixed_segments r = count_segments r.pattern - length r.param_names

-- `a` may stand ahead of `b`: it has more fixed segments, or as many and more segments, or as many
-- of both and a pattern that is not behind.
abbrev pub IsAhead : DynamicRoute → DynamicRoute → Type 0
IsAhead a b =
    (fixed_segments b < fixed_segments a)
    ⊎ ((fixed_segments a ≡ fixed_segments b)
        × ((count_segments b.pattern < count_segments a.pattern)
            ⊎ ((count_segments a.pattern ≡ count_segments b.pattern) × LexLe a.pattern b.pattern)))

-- What registering a dynamic route does to the table.
pub record IsRegistered (t u : RouteTable) (pattern : Bytes) (method : Verb) (handler : Handler)
    : Type 0 where
  pub parsed : List Item × List Bytes
  pub reads : parse_pattern pattern ≡ ok parsed
  pub same_routes :
      Perm u.dynamic_routes (new_dynamic pattern method handler parsed ∷ t.dynamic_routes)
  pub sorted : IsOrdered IsAhead u.dynamic_routes
  pub same_static : u.static_routes ≡ t.static_routes
