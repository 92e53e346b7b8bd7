-- ===== src/Router/Regex/Laws.antt =====
-- Matching against what the items stand for.
use foxhttp.Prelude.{
  ℕ, ◌≡◌, refl, ◌≢◌, ap, ◌∙◌, Option, none, some, List, [], ◌∷◌, ◌++◌, Bytes, Lacks, All,
  All-append, append_assoc, arith, Option-cases, inl, inr, ◌⊎◌,
}
use mathlib.Core.Option
use foxhttp.Router.Regex.{Item, chr, group, grab, match}

-- What a capture may hold.
abbrev pub IsSegment : Bytes → Type 0
IsSegment v = (v ≢ []) × Lacks b'/' v

-- The path that the items and the values of the groups spell.
unfoldable pub fill : List Item → List Bytes → Option Bytes
fill [] [] = some []
fill [] (v ∷ vs) = none
fill (chr c ∷ items) vs = Option.map (◌∷◌ c) (fill items vs)
fill (group ∷ items) [] = none
fill (group ∷ items) (v ∷ vs) = Option.map (◌++◌ v) (fill items vs)

append-ne-nil : (a : Bytes) (c : ℕ) → (a ++ c ∷ []) ≢ []
append-ne-nil [] c = cc
append-ne-nil (x ∷ a) c = cc

-- A capture ends later, or here.
grab_step :
    (k : Bytes → Option (List Bytes)) (taken s : Bytes) (c : ℕ) (vs : List Bytes)
    → grab k taken (c ∷ s) ≡ some vs
    → (c ≢ b'/')
      × ((grab k (taken ++ c ∷ []) s ≡ some vs)
          ⊎ ((ws : List Bytes) × (k s ≡ some ws) × (vs ≡ (taken ++ c ∷ []) ∷ ws)))
unfolding grab
grab_step k taken s c vs e = elim (Option-cases (grab k (taken ++ c ∷ []) s)) [
  | inr (caught, q) ↦ (ground arith, inl (ground arith))
  | inl q ↦ elim (Option-cases (k s)) [
    | inl r ↦ absurd (ground arith)
    | inr (ws, r) ↦ (ground arith, inr (ws, r, ground arith))
  ]
]

module _ (items : List Item) (k : Bytes → Option (List Bytes))
    (sound : (s : Bytes) (vs : List Bytes)
      → k s ≡ some vs
      → (fill items vs ≡ some s) × All IsSegment vs) where
  grab_sound :
      (taken s : Bytes) (vs : List Bytes)
      → Lacks b'/' taken
      → grab k taken s ≡ some vs
      → (fill (group ∷ items) vs ≡ some (taken ++ s)) × All IsSegment vs
  unfolding fill
  grab_sound taken [] vs h e = absurd (unfold grab in cc)
  grab_sound taken (c ∷ s) vs h e =
      let (plain, ended) = grab_step k taken s c vs e in
      let lacks : Lacks b'/' (taken ++ c ∷ []) =
        All-append (λ x. x ≢ b'/') taken (c ∷ []) h (plain, tt) in
      elim ended [
        | inl more ↦
            let (f, a) = grab_sound (taken ++ c ∷ []) s vs lacks more in
            (f ∙ ap some (append_assoc taken (c ∷ []) s), a)
        | inr (ws, r, same) ↦
            let (f, a) = sound s ws r in
            rw same (
              (rw f (ap some (append_assoc taken (c ∷ []) s))),
              ((append-ne-nil taken c, lacks), a),
            )
      ]

-- A match spells the path, and its captures are segments.
pub match_sound :
    (items : List Item) (s : Bytes) (vs : List Bytes)
    → match items s ≡ some vs
    → (fill items vs ≡ some s) × All IsSegment vs
unfolding match fill
match_sound [] [] [] e = (refl, tt)
match_sound [] [] (v ∷ vs) e = cc
match_sound [] (c ∷ s) vs e = cc
match_sound (chr d ∷ items) [] vs e = cc
match_sound (chr d ∷ items) (c ∷ s) vs e = ground (arith, match_sound items s vs)
match_sound (group ∷ items) s vs e = grab_sound items (match items) (match_sound items) [] s vs tt e

grab_complete :
    (k : Bytes → Option (List Bytes)) (taken v s : Bytes)
    → IsSegment v
    → k s ≢ none
    → grab k taken (v ++ s) ≢ none
unfolding grab
grab_complete k taken [] s (p, _) h = absurd (p refl)
grab_complete k taken (c ∷ []) s (_, (q, _)) h =
    ground (arith, Option-cases (k s), Option-cases (grab k (taken ++ c ∷ []) s))
grab_complete k taken (c ∷ d ∷ v) s (_, (q, l)) h =
    let ih = grab_complete k (taken ++ c ∷ []) (d ∷ v) s ((cc), l) h in
    ground (arith, ih, Option-cases (grab k (taken ++ c ∷ []) (d ∷ v ++ s)))

-- Whatever segments spell the path, the engine finds a match.
pub match_complete :
    (items : List Item) (s : Bytes) (vs : List Bytes)
    → fill items vs ≡ some s
    → All IsSegment vs
    → match items s ≢ none
unfolding match fill
match_complete [] [] [] e h = cc
match_complete [] (c ∷ s) [] e h = cc
match_complete [] s (v ∷ vs) e h = cc
match_complete (chr d ∷ items) s vs e h = elim (Option-cases (fill items vs)) [
  | inl q ↦ ground arith
  | inr (rest, q) ↦
      let same : s ≡ d ∷ rest = ground arith in
      rw same (ground (arith, match_complete items rest vs q h))
]
match_complete (group ∷ items) s [] e h = cc
match_complete (group ∷ items) s (v ∷ vs) e (p, h) = elim (Option-cases (fill items vs)) [
  | inl q ↦ ground arith
  | inr (rest, q) ↦
      let same : s ≡ v ++ rest = ground arith in
      rw same (grab_complete (match items) [] v rest p (match_complete items rest vs q h))
]
