-- ===== src/Prelude/Sort.antt =====
-- `std::sort` with a comparison. Elements that the comparison does not tell apart keep their order,
-- which the standard leaves open.
use mathlib.Core.Path.{◌≡◌, refl, subst}
use mathlib.Core.Bool.{Bool, true, false}
use mathlib.Core.Logic.{inl, inr}
use mathlib.Core.List.{List, [], ◌∷◌, ◌++◌, Perm, perm_middle, append-nil}
use mathlib.Core.List.Perm
use foxhttp.Prelude.Tests.{if◌then◌else◌, Bool-cases}
use foxhttp.Prelude.Lists.{All, is_empty}

module _ {A : Type 0} where
  unfoldable pub insert_by : (A → A → Bool) → A → List A → List A
  insert_by before r [] = r ∷ []
  insert_by before r (x ∷ xs) = if before x r then x ∷ insert_by before r xs else r ∷ x ∷ xs

  unfoldable pub sort_by : (A → A → Bool) → List A → List A
  unfolding insert_by
  sort_by before [] = []
  sort_by before (x ∷ xs) = insert_by before x (sort_by before xs)

  -- No element comes before one that stands ahead of it.
  abbrev pub IsSorted : (A → A → Bool) → List A → Type 0
  IsSorted before [] = Unit
  IsSorted before (x ∷ xs) = All (λ y. before y x ≡ false) xs × IsSorted before xs

  pub All-mono : (P Q : A → Type 0) (xs : List A) → ((x : A) → P x → Q x) → All P xs → All Q xs
  All-mono P Q [] f h = tt
  All-mono P Q (x ∷ xs) f (p, h) = (f x p, All-mono P Q xs f h)

  -- Every element stands in the relation to all behind it.
  abbrev pub IsOrdered : (A → A → Type 0) → List A → Type 0
  IsOrdered R [] = Unit
  IsOrdered R (x ∷ xs) = All (R x) xs × IsOrdered R xs

  pub IsSorted-IsOrdered :
      (before : A → A → Bool) (R : A → A → Type 0) (xs : List A)
      → ((a b : A) → before b a ≡ false → R a b)
      → IsSorted before xs
      → IsOrdered R xs
  IsSorted-IsOrdered before R [] f h = tt
  IsSorted-IsOrdered before R (x ∷ xs) f (p, h) =
      (All-mono (λ y. before y x ≡ false) (R x) xs (f x) p, IsSorted-IsOrdered before R xs f h)

  module _ (before : A → A → Bool) where
    All-insert_by :
        (P : A → Type 0) (r : A) (xs : List A) → P r → All P xs → All P (insert_by before r xs)
    unfolding insert_by
    All-insert_by P r [] p h = (p, tt)
    All-insert_by P r (x ∷ xs) p (q, h) = elim (Bool-cases (before x r)) [
      | inl e ↦ rw e (q, All-insert_by P r xs p h)
      | inr e ↦ rw e (p, (q, h))
    ]

    pub All-sort_by : (P : A → Type 0) (xs : List A) → All P xs → All P (sort_by before xs)
    unfolding sort_by
    All-sort_by P [] h = tt
    All-sort_by P (x ∷ xs) h = All-insert_by P x (sort_by before xs) h.0 (All-sort_by P xs h.1)

    insert_by_full : (r : A) (xs : List A) → is_empty (insert_by before r xs) ≡ false
    unfolding insert_by
    insert_by_full r [] = refl
    insert_by_full r (x ∷ xs) = elim (Bool-cases (before x r)) [ inl e ↦ rw e | inr e ↦ rw e ]

    pub is_empty-sort_by : (xs : List A) → is_empty (sort_by before xs) ≡ is_empty xs
    unfolding sort_by
    is_empty-sort_by [] = refl
    is_empty-sort_by (x ∷ xs) = insert_by_full x (sort_by before xs)

    insert_by-perm : (r : A) (xs : List A) → Perm (insert_by before r xs) (r ∷ xs)
    unfolding insert_by
    insert_by-perm r [] = Perm.refl (r ∷ [])
    insert_by-perm r (x ∷ xs) = elim (Bool-cases (before x r)) [
      | inl e ↦ rw e (Perm.trans (Perm.cons x (insert_by-perm r xs)) (Perm.swap r x xs))
      | inr e ↦ rw e (Perm.refl (r ∷ x ∷ xs))
    ]

    pub sort_by-perm : (xs : List A) → Perm (sort_by before xs) xs
    unfolding sort_by
    sort_by-perm [] = Perm.refl []
    sort_by-perm (x ∷ xs) =
        Perm.trans (insert_by-perm x (sort_by before xs)) (Perm.cons x (sort_by-perm xs))

    -- After `push_back` and `sort`.
    pub sort_by_last-perm : (r : A) (rs : List A) → Perm (sort_by before (rs ++ r ∷ [])) (r ∷ rs)
    sort_by_last-perm r rs =
        Perm.trans (sort_by-perm (rs ++ r ∷ []))
          (subst (λ l. Perm (rs ++ r ∷ []) (r ∷ l)) (append-nil rs) (perm_middle rs []))

    -- For a comparison that is asymmetric and whose negation is transitive.
    module _ (asym : (a b : A) → before a b ≡ true → before b a ≡ false)
        (weak : (a b c : A) → before b a ≡ false → before c b ≡ false → before c a ≡ false) where
      insert_by-IsSorted :
          (r : A) (xs : List A) → IsSorted before xs → IsSorted before (insert_by before r xs)
      unfolding insert_by
      insert_by-IsSorted r [] h = (tt, tt)
      insert_by-IsSorted r (x ∷ xs) (p, h) = elim (Bool-cases (before x r)) [
        | inl e ↦
            rw e (
              All-insert_by (λ y. before y x ≡ false) r xs (asym x r e) p,
              insert_by-IsSorted r xs h,
            )
        | inr e ↦ rw e (
          (
            e,
            All-mono (λ y. before y x ≡ false) (λ y. before y r ≡ false) xs (λ y q. weak r x y e q)
                p,
          ),
          (p, h),
        )
      ]

      pub sort_by-IsSorted : (xs : List A) → IsSorted before (sort_by before xs)
      unfolding sort_by
      sort_by-IsSorted [] = tt
      sort_by-IsSorted (x ∷ xs) = insert_by-IsSorted x (sort_by before xs) (sort_by-IsSorted xs)
