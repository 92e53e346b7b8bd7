-- ===== src/Parser/PlainText/Trim.antt =====
-- What `trim_whitespace` cuts off.
use foxhttp.Prelude.{
  ℕ, zero, suc, ◌+◌, ◌-◌, ◌≤◌, ◌<◌, ◌≡◌, refl, sym, ap, ◌∙◌, subst, ◌⊎◌, inl, inr, Bool, true,
  false, ◌&&◌, [], ◌∷◌, ◌++◌, arith, leb, ◌==◌, leb→le, ==_iff, Bool-cases, length, get_elem?, take,
  drop, take-append-drop, length-drop, drop-add, All, Bytes, is_space,
}
use foxhttp.Parser.PlainText.{trim_start, space_at, trim_stop, trim_whitespace}

abbrev AllSpace : Bytes → Type 0
AllSpace = All (λ c. is_space c ≡ true)

start-spaces : (s : Bytes) → AllSpace (take (trim_start s) s)
start-spaces [] = tt
start-spaces (c ∷ s) = elim (Bool-cases (is_space c)) [
  | inl e ↦ rw e (e, start-spaces s)
  | inr e ↦ rw e tt
]

start-bound : (s : Bytes) → trim_start s ≤ length s
start-bound [] = omega arith
start-bound (c ∷ s) = ground (arith, start-bound s)

start-stops : (s : Bytes) → trim_start s < length s → space_at s (trim_start s) ≡ false
start-stops [] h = absurd (omega arith)
start-stops (c ∷ s) h = elim (Bool-cases (is_space c)) [
  | inl e ↦ rw e (start-stops s (ground arith))
  | inr e ↦ rw (e, e) refl
]

stop-bound :
    (s : Bytes) (start n : ℕ)
    → start ≤ n
    → (trim_stop s start n ≤ n) × (start ≤ trim_stop s start n)
stop-bound s start zero h = (omega arith, omega arith)
stop-bound s start (suc end) h = elim (Bool-cases (leb start end && space_at s end)) [
  | inl e ↦ rw e (let (a, b) = stop-bound s start end (ground arith) in (omega arith, b))
  | inr e ↦ rw e (omega arith, h)
]

stop_on :
    (s : Bytes) (start end : ℕ)
    → (leb start end && space_at s end) ≡ true
    → trim_stop s start (suc end) ≡ trim_stop s start end
stop_on s start end e = rw e refl

stop_off :
    (s : Bytes) (start end : ℕ)
    → (leb start end && space_at s end) ≡ false
    → trim_stop s start (suc end) ≡ suc end
stop_off s start end e = rw e refl

both : (a b : Bool) → (a && b) ≡ true → (a ≡ true) × (b ≡ true)
both true b e = (refl, e)
both false b e = cc

-- Behind the place where the second loop stops there are only spaces, up to `n`.
stop-spaces : (s : Bytes) (start n i : ℕ) → trim_stop s start n ≤ i → i < n → space_at s i ≡ true
stop-spaces s start zero i h k = absurd (omega arith)
stop-spaces s start (suc end) i h k = elim (Bool-cases (leb start end && space_at s end)) [
  | inl e ↦ elim (Bool-cases (i == end)) [
    | inl last ↦ subst (λ j. space_at s j ≡ true) (sym ((==_iff i end).0 last)) (both _ _ e).1
    | inr before ↦
        stop-spaces s start end i (subst (λ n. n ≤ i) (stop_on s start end e) h) (ground arith)
  ]
  | inr e ↦ absurd (ground (arith, stop_off s start end e))
]

stop-stops :
    (s : Bytes) (start n end : ℕ)
    → trim_stop s start n ≡ suc end
    → start ≤ end
    → space_at s end ≡ false
stop-stops s start zero end e h = cc
stop-stops s start (suc last) end e h = elim (Bool-cases (leb start last && space_at s last)) [
  | inl more ↦ stop-stops s start last end (sym (stop_on s start last more) ∙ e) h
  | inr stops ↦ ground (arith, stop_off s start last stops)
]

-- A byte of a list, found at its place.
get_elem?-drop : (s : Bytes) (start i : ℕ) → get_elem? (drop start s) i ≡ get_elem? s (start + i)
get_elem?-drop s zero i = let e : i ≡ 0 + i = omega arith in ap (get_elem? s) e
get_elem?-drop [] (suc start) i = refl
get_elem?-drop (c ∷ s) (suc start) i =
    let e : suc (start + i) ≡ suc start + i = omega arith in
    get_elem?-drop s start i ∙ ap (get_elem? (c ∷ s)) e

get_elem?-take : (s : Bytes) (n i : ℕ) → i < n → get_elem? (take n s) i ≡ get_elem? s i
get_elem?-take s zero i h = absurd (omega arith)
get_elem?-take [] (suc n) i h = refl
get_elem?-take (c ∷ s) (suc n) zero h = refl
get_elem?-take (c ∷ s) (suc n) (suc i) h = get_elem?-take s n i (omega arith)

length-take : (s : Bytes) (n : ℕ) → n ≤ length s → length (take n s) ≡ n
length-take s zero h = refl
length-take [] (suc n) h = absurd (omega arith)
length-take (c ∷ s) (suc n) h = omega (arith, length-take s n (omega arith))

space_of_elem :
    (s t : Bytes) (i j : ℕ) → get_elem? s i ≡ get_elem? t j → space_at s i ≡ space_at t j
space_of_elem s t i j e = rw (space_at, e) refl

spaces_of_places : (s : Bytes) → ((i : ℕ) → i < length s → space_at s i ≡ true) → AllSpace s
spaces_of_places [] h = tt
spaces_of_places (c ∷ s) h =
    (h 0 (omega arith), spaces_of_places s (λ i k. h (suc i) (omega arith)))

spaces-drop : (s : Bytes) (start : ℕ) → AllSpace (drop (trim_stop s start (length s)) s)
spaces-drop s start =
    let stop = trim_stop s start (length s) in
    spaces_of_places (drop stop s) (λ i h.
      space_of_elem (drop stop s) s i (stop + i) (get_elem?-drop s stop i)
      ∙ stop-spaces s start (length s) (stop + i) (omega arith) (omega (arith, length-drop stop s)))

-- No space at either end.
abbrev pub IsTight : Bytes → Type 0
IsTight t = (t ≡ []) ⊎ ((space_at t 0 ≡ false) × (space_at t (length t - 1) ≡ false))

pub record IsTrimmed (s t : Bytes) : Type 0 where
  pub front : Bytes
  pub back : Bytes
  pub whole : s ≡ front ++ (t ++ back)
  pub front_spaces : All (λ c. is_space c ≡ true) front
  pub back_spaces : All (λ c. is_space c ≡ true) back
  pub tight : IsTight t

middle-IsTight :
    (s : Bytes) (start stop : ℕ)
    → start < stop
    → stop ≤ length s
    → space_at s start ≡ false
    → space_at s (stop - 1) ≡ false
    → IsTight (take (stop - start) (drop start s))
middle-IsTight s start stop h bound first last =
    let t = take (stop - start) (drop start s) in
    let long : length t ≡ stop - start =
      length-take (drop start s) (stop - start) (omega (arith, length-drop start s)) in
    let at_start : start + 0 ≡ start = omega arith in
    let at_end : start + (length t - 1) ≡ stop - 1 = omega arith in
    inr (
      space_of_elem t s 0 start (
            get_elem?-take (drop start s) (stop - start) 0 (omega arith)
            ∙ get_elem?-drop s start 0
            ∙ ap (get_elem? s) at_start)
          ∙ first,
      space_of_elem t s (length t - 1) (stop - 1) (
            get_elem?-take (drop start s) (stop - start) (length t - 1) (omega arith)
            ∙ get_elem?-drop s start (length t - 1)
            ∙ ap (get_elem? s) at_end)
          ∙ last,
    )

cut :
    (s : Bytes) (start stop : ℕ)
    → start < stop
    → s ≡ take start s ++ (take (stop - start) (drop start s) ++ drop stop s)
cut s start stop h =
    let sum : start + (stop - start) ≡ stop = omega arith in
    sym (take-append-drop start s)
    ∙ ap (λ t. take start s ++ t)
        (sym (take-append-drop (stop - start) (drop start s))
          ∙ ap (λ t. take (stop - start) (drop start s) ++ t)
              (sym (drop-add start (stop - start) s) ∙ ap (λ k. drop k s) sum))

-- Trimming cuts spaces off both ends, spaces only, and leaves none at either end.
pub trim_whitespace-IsTrimmed : (s : Bytes) → IsTrimmed s (trim_whitespace s)
unfolding trim_whitespace
trim_whitespace-IsTrimmed [] = record {
  front = [];
  back = [];
  whole = refl;
  front_spaces = tt;
  back_spaces = tt;
  tight = inl refl;
}
trim_whitespace-IsTrimmed (c ∷ rest) =
    let s = c ∷ rest in
    let start = trim_start s in
    let stop = trim_stop s start (length s) in
    let bounds = stop-bound s start (length s) (start-bound s) in
    elim (Bool-cases (leb stop start)) [
      | inl none_left ↦ rw none_left record {
        front = take stop s;
        back = drop stop s;
        whole = sym (take-append-drop stop s);
        front_spaces =
            subst (λ k. AllSpace (take k s)) (meets start stop none_left bounds.1) (start-spaces s);
        back_spaces = spaces-drop s start;
        tight = inl refl;
      }
      | inr some_left ↦
          let less : start < stop = ground arith in
          rw some_left record {
            front = take start s;
            back = drop stop s;
            whole = cut s start stop less;
            front_spaces = start-spaces s;
            back_spaces = spaces-drop s start;
            tight =
                middle-IsTight s start stop less bounds.0 (start-stops s (omega arith))
                  (stop-stops s start (length s) (stop - 1) (omega arith) (omega arith));
          }
    ]
  where
    meets : (start stop : ℕ) → leb stop start ≡ true → start ≤ stop → start ≡ stop
    meets start stop e h = omega (arith, leb→le stop start e)
