-- ===== src/Middleware/Chain/Laws.antt =====
-- What the operations on the list of middlewares promise.
use foxhttp.Prelude.{
  ℕ, zero, suc, ◌+◌, ◌≤◌, ◌≡◌, refl, sym, ap, ◌∙◌, subst, ◌≢◌, ◌↔◌, inl, inr, Bool, true, false,
  not, List, [], ◌∷◌, ◌++◌, arith, Bool-cases, length, take, drop, keep, length-append,
  take-append-drop, Bytes, same, same_iff,
}
use mathlib.Core.List.{Perm}
use foxhttp.Prelude.Sort.{IsSorted, sort_by_last-perm, sort_by-IsSorted}
use foxhttp.Middleware.Code.{Middleware}
use foxhttp.Middleware.Chain.{
  Chain, by_priority, use_one, insert_at, insert_by_priority, remove, size,
}

name_ne : (a b : Bytes) → not (same a b) ≡ true → a ≢ b
name_ne a b h = ground (arith, same_iff a b)

not-same : (a b : Bytes) → a ≢ b → not (same a b) ≡ true
not-same a b h = ground (arith, same_iff a b)

module _ {C : Type 0} where
  by_priority_asym : (a b : Middleware C) → by_priority a b ≡ true → by_priority b a ≡ false
  by_priority_asym a b h = ground arith

  by_priority_weak :
      (a b c : Middleware C)
      → by_priority b a ≡ false
      → by_priority c b ≡ false
      → by_priority c a ≡ false
  by_priority_weak a b c h k = ground arith

  -- What an operation that adds a middleware leaves: the middlewares that were there and the new
  -- one, by rising priority.
  pub record IsAdded (c : Chain C) (mw : Middleware C) (d : Chain C) : Type 0 where
    pub same_middlewares : Perm d.mws (mw ∷ c.mws)
    pub sorted : IsSorted by_priority d.mws
    pub same_auto : d.auto_sort_by_priority ≡ c.auto_sort_by_priority

  insert_by_priority-IsAdded :
      (c : Chain C) (mw : Middleware C) → IsAdded c mw (insert_by_priority c mw)
  unfolding insert_by_priority
  insert_by_priority-IsAdded c mw = record {
    same_middlewares = sort_by_last-perm by_priority mw c.mws;
    sorted = sort_by-IsSorted by_priority by_priority_asym by_priority_weak (c.mws ++ mw ∷ []);
    same_auto = refl;
  }

  use_one_sorts :
      (c : Chain C) (mw : Middleware C)
      → c.auto_sort_by_priority ≡ true
      → use_one c mw ≡ insert_by_priority c mw
  unfolding use_one insert_by_priority
  use_one_sorts c mw h = ground arith

  -- With automatic sorting on, `use` adds the middleware and leaves all of them in the order of
  -- their priorities, whatever the order before.
  pub use_one-IsAdded :
      (c : Chain C) (mw : Middleware C)
      → c.auto_sort_by_priority ≡ true
      → IsAdded c mw (use_one c mw)
  use_one-IsAdded c mw h =
      subst (IsAdded c mw) (sym (use_one_sorts c mw h)) (insert_by_priority-IsAdded c mw)

  take-end : (n : ℕ) (l : List (Middleware C)) → length l ≤ n → take n l ≡ l
  take-end zero [] h = refl
  take-end zero (x ∷ l) h = elim h [ ]
  take-end (suc n) [] h = refl
  take-end (suc n) (x ∷ l) h = ap (◌∷◌ x) (take-end n l (omega arith))

  drop-end : (n : ℕ) (l : List (Middleware C)) → length l ≤ n → drop n l ≡ []
  drop-end zero [] h = refl
  drop-end zero (x ∷ l) h = elim h [ ]
  drop-end (suc n) [] h = refl
  drop-end (suc n) (x ∷ l) h = drop-end n l (omega arith)

  -- `insert` puts the middleware behind the first `index`, or at the end, and moves no other.
  pub insert_at-split :
      (c : Chain C) (index : ℕ) (mw : Middleware C)
      → ((insert_at c index mw).mws ≡ take index c.mws ++ mw ∷ drop index c.mws)
        × (size (insert_at c index mw) ≡ size c + 1)
  unfolding insert_at size
  insert_at-split c index mw = (
    ground (arith, take-end index c.mws, drop-end index c.mws),
    ground (
      arith,
      length-append c.mws (mw ∷ []),
      length-append (take index c.mws) (mw ∷ drop index c.mws),
      take-append-drop index c.mws,
      length-append (take index c.mws) (drop index c.mws),
    ),
  )

  -- A middleware stands in the list.
  pub data Among (mw : Middleware C) : List (Middleware C) → Type 0 where
    head : {x : Middleware C} {l : List (Middleware C)} → x ≡ mw → Among mw (x ∷ l)
    tail : {x : Middleware C} {l : List (Middleware C)} → Among mw l → Among mw (x ∷ l)

  module _ (p : Middleware C → Bool) (mw : Middleware C) where
    Among-kept :
        {x : Middleware C} {l m : List (Middleware C)}
        → p x ≡ true
        → (Among mw l → Among mw m × (p mw ≡ true))
        → Among mw (x ∷ l)
        → Among mw (x ∷ m) × (p mw ≡ true)
    Among-kept e to (head same) = (head same, ap p (sym same) ∙ e)
    Among-kept e to (tail a) = (tail (to a).0, (to a).1)

    Among-keep :
        {x : Middleware C} {l m : List (Middleware C)}
        → (Among mw m → Among mw l)
        → Among mw (x ∷ m)
        → Among mw (x ∷ l)
    Among-keep from (head same) = head same
    Among-keep from (tail a) = tail (from a)

    Among-dropped :
        {x : Middleware C} {l m : List (Middleware C)}
        → p x ≡ false
        → p mw ≡ true
        → (Among mw m → Among mw l)
        → Among mw (x ∷ m)
        → Among mw l
    Among-dropped e q from (head same) = absurd (cc (ap p same))
    Among-dropped e q from (tail a) = from a

    Among-keep_iff : (l : List (Middleware C)) → Among mw (keep p l) ↔ (Among mw l × (p mw ≡ true))
    Among-keep_iff [] = (λ m. elim m [ ], λ m. elim m.0 [ ])
    Among-keep_iff (x ∷ l) =
        let (to, from) = Among-keep_iff l in
        elim (Bool-cases (p x)) [
          | inl e ↦ rw e (Among-kept e to, λ m. Among-keep (λ a. from (a, m.1)) m.0)
          | inr e ↦
              rw e
                (λ m. (tail (to m).0, (to m).1), λ m. Among-dropped e m.1 (λ a. from (a, m.1)) m.0)
        ]

  -- `remove` takes out exactly the middlewares of that name.
  pub Among-remove_iff :
      (c : Chain C) (name : Bytes) (mw : Middleware C)
      → Among mw (remove c name).mws ↔ (Among mw c.mws × (mw.name ≢ name))
  unfolding remove
  Among-remove_iff c name mw =
      let (to, from) = Among-keep_iff (λ m. not (same m.name name)) mw c.mws in
      (λ a. ((to a).0, name_ne mw.name name (to a).1), λ m. from (m.0, not-same mw.name name m.1))
