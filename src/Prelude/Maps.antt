-- ===== src/Prelude/Maps.antt =====
-- `std::unordered_map` with string keys: an association list without repeated keys.
use mathlib.Core.Path.{◌≡◌, refl}
use mathlib.Core.List.{List, [], ◌∷◌}
use mathlib.Core.Option.{Option, none, some}
use native.Mathlib.Omega.{arith}
use foxhttp.Prelude.Lists.{is_empty}
use mathlib.Core.Bool.{false}
use foxhttp.Prelude.Tests.{if◌then◌else◌}
use foxhttp.Prelude.Text.{Bytes, same, same_iff}

module _ {ℓ} {V : Type ℓ} where
  unfoldable pub lookup : Bytes → List (Bytes × V) → Option V
  lookup k [] = none
  lookup k ((j, v) ∷ m) = if same j k then some v else lookup k m

  -- `m[k] = v`
  unfoldable pub insert : Bytes → V → List (Bytes × V) → List (Bytes × V)
  insert k v [] = (k, v) ∷ []
  insert k v ((j, w) ∷ m) = if same j k then (j, v) ∷ m else (j, w) ∷ insert k v m

  pub lookup-insert :
      (k j : Bytes) (v : V) (m : List (Bytes × V))
      → lookup j (insert k v m) ≡ (if same k j then some v else lookup j m)
  unfolding lookup insert
  lookup-insert k j v [] = refl
  lookup-insert k j v ((i, w) ∷ m) =
      ground (arith, same_iff k j, same_iff i k, same_iff i j, lookup-insert k j v m)

  pub is_empty_of_lookup :
      (k : Bytes) (v : V) (m : List (Bytes × V)) → lookup k m ≡ some v → is_empty m ≡ false
  unfolding lookup
  is_empty_of_lookup k v [] e = cc
  is_empty_of_lookup k v (x ∷ m) e = refl

  pub lookup-nil : (k : Bytes) → lookup k [] ≡ none
  unfolding lookup
  lookup-nil k = refl
