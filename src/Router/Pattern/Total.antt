-- ===== src/Router/Pattern/Total.antt =====
-- Every pattern is spelled by pieces, or is refused for an open parameter or an empty name.
use foxhttp.Prelude.{
  ℕ, zero, suc, ◌+◌, ◌-◌, ◌<◌, ◌≡◌, ◌⊎◌, refl, ◌≢◌, ap, sym, ◌∙◌, some, List, [], ◌∷◌, ◌++◌, Bytes,
  Lacks, All, arith, Option-cases, Bool-cases, inl, inr, find, take, drop, length, is_empty, false,
  ok, err, find_split, drop_at, find-lt-length, find-Lacks, length-drop, drop-add,
}
use foxhttp.Router.Pattern.{parse_from, parse_pattern, unclosed_parameter, empty_name}
use foxhttp.Router.Pattern.Laws.{
  parse_from_step, parse_pattern-spell, items_of, names_of, Pieces, IsPiece, spell,
}

abbrev IsSpelled : Bytes → Type 0
IsSpelled p =
    (ps : Pieces) × (last : Bytes) × All IsPiece ps × Lacks b'{' last × (spell ps last ≡ p)

module _ (rest : Bytes) (pos len : ℕ) where
  -- The parameter's name and what follows it, as the loop cuts them.
  cut_name : Bytes
  cut_name = take (len - 1) (drop (pos + 1) rest)

  cut_tail : Bytes
  cut_tail = drop (pos + len + 1) rest

close_found :
    (rest : Bytes) (pos len : ℕ)
    → find b'{' rest ≡ some pos
    → find b'}' (drop pos rest) ≡ some (suc len)
    → find b'}' (drop (suc pos) rest) ≡ some len
close_found rest pos len p q =
    let q' = rw (drop_at b'{' rest pos p) at q in
    elim (Option-cases (find b'}' (drop (suc pos) rest))) [
      | inl n ↦ absurd (ground arith)
      | inr (j, n) ↦ ground arith
    ]

cut_name-suc :
    (rest : Bytes) (pos len : ℕ) → cut_name rest pos (suc len) ≡ take len (drop (suc pos) rest)
unfolding cut_name
cut_name-suc rest pos len =
    let one_less : suc len - 1 ≡ len = omega arith in
    let one_more : pos + 1 ≡ suc pos = omega arith in rw (one_less, one_more)

cut_tail-suc :
    (rest : Bytes) (pos len : ℕ)
    → cut_tail rest pos (suc len) ≡ drop (suc len) (drop (suc pos) rest)
unfolding cut_tail
cut_tail-suc rest pos len =
    let same : pos + suc len + 1 ≡ suc pos + suc len = omega arith in
    rw same (drop-add (suc pos) (suc len) rest)

-- The first parameter of a text with both braces.
first-IsPiece :
    (rest : Bytes) (pos len : ℕ)
    → find b'{' rest ≡ some pos
    → find b'}' (drop pos rest) ≡ some len
    → is_empty (cut_name rest pos len) ≡ false
    → IsPiece (take pos rest, cut_name rest pos len)
      × (rest ≡ take pos rest ++ (b'{' ∷ cut_name rest pos len ++ (b'}' ∷ cut_tail rest pos len)))
first-IsPiece rest pos zero p q r = absurd (unfold cut_name in (cc))
first-IsPiece rest pos (suc len) p q r =
    let (whole, before) = find_split b'{' rest pos p in
    let (inner, name) = find_split b'}' (drop (suc pos) rest) len (close_found rest pos len p q) in
    let nonempty : cut_name rest pos (suc len) ≢ [] = λ e. cc (ap (λ (s : Bytes). is_empty s) e) in
    (
      (before, nonempty, rw (cut_name-suc rest pos len) name),
      whole
          ∙ ap (λ (s : Bytes). take pos rest ++ b'{' ∷ s)
              (rw (cut_name-suc rest pos len, cut_tail-suc rest pos len) inner),
    )

cut_tail_shorter :
    (rest : Bytes) (pos len : ℕ)
    → find b'{' rest ≡ some pos
    → length (drop (pos + len + 1) rest) < length rest
cut_tail_shorter rest pos len p =
    omega (arith, length-drop (pos + len + 1) rest, find-lt-length b'{' rest pos p)

IsSpelled-piece :
    (rest : Bytes) (pos len : ℕ)
    → IsPiece (take pos rest, cut_name rest pos len)
    → rest ≡ take pos rest ++ (b'{' ∷ cut_name rest pos len ++ (b'}' ∷ cut_tail rest pos len))
    → IsSpelled (cut_tail rest pos len)
    → IsSpelled rest
IsSpelled-piece rest pos len piece whole (ps, last, a, l, e) = (
  (take pos rest, cut_name rest pos len) ∷ ps,
  last,
  (piece, a),
  l,
  ap (λ (s : Bytes). take pos rest ++ (b'{' ∷ cut_name rest pos len ++ (b'}' ∷ s))) e ∙ sym whole,
)

-- With more fuel than text, the loop ends: by refusing, or with all of the text read.
parse_from_total :
    (fuel : ℕ) (rest regex : Bytes) (names : List Bytes)
    → length rest < fuel
    → (parse_from fuel rest regex names ≡ err unclosed_parameter)
      ⊎ (parse_from fuel rest regex names ≡ err empty_name)
      ⊎ IsSpelled rest
unfolding cut_tail
parse_from_total zero rest regex names h = elim h [ ]
parse_from_total (suc fuel) rest regex names h = elim (Option-cases (find b'{' rest)) [
  | inl p ↦ inr (inr ([], rest, tt, find-Lacks b'{' rest p, refl))
  | inr (pos, p) ↦ elim (Option-cases (find b'}' (drop pos rest))) [
    | inl q ↦ inl (unfold parse_from in ground arith)
    | inr (len, q) ↦ elim (Bool-cases (is_empty (cut_name rest pos len))) [
      | inl r ↦ inr (inl (unfold parse_from cut_name in ground arith))
      | inr r ↦
          let step = parse_from_step fuel pos len rest regex names p q (unfold cut_name in r) in
          let (piece, whole) = first-IsPiece rest pos len p q r in
          elim (parse_from_total fuel (drop (pos + len + 1) rest) _ _
            (omega (arith, cut_tail_shorter rest pos len p))) [
              | inl e ↦ inl (step ∙ e)
              | inr (inl e) ↦ inr (inl (step ∙ e))
              | inr (inr s) ↦ inr (inr (IsSpelled-piece rest pos len piece whole s))
            ]
    ]
  ]
]

-- Every pattern is refused for a parameter that is not closed or has no name, or is read: it is
-- then spelled by pieces, and the result is their items and names. No pattern runs the loop out of
-- its fuel, or hands `std::regex` a text that it refuses.
pub parse_pattern_total :
    (p : Bytes)
    → (parse_pattern p ≡ err unclosed_parameter)
      ⊎ (parse_pattern p ≡ err empty_name)
      ⊎ ((ps : Pieces) × (last : Bytes) × (spell ps last ≡ p)
          × (parse_pattern p ≡ ok (items_of ps last, names_of ps)))
parse_pattern_total p = elim (parse_from_total (suc (length p)) p [] [] (omega arith)) [
  | inl e ↦ inl (unfold parse_pattern in rw e)
  | inr (inl e) ↦ inr (inl (unfold parse_pattern in rw e))
  | inr (inr (ps, last, a, l, e)) ↦
      inr (inr (ps, last, e, rw (← e) (parse_pattern-spell ps last a l)))
]
