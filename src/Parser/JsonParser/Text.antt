-- ===== src/Parser/JsonParser/Text.antt =====
-- What `preprocess_json` changes.
use foxhttp.Prelude.{
  ℕ, suc, ◌≤◌, ◌<◌, ◌≡◌, refl, sym, ap, ◌∙◌, ◌≢◌, ◌↔◌, inl, inr, Bool, true, false, Option, none,
  some, [], ◌∷◌, arith, Bool-cases, Option-cases, length, is_empty, Bytes, codes, starts_with,
  find_text,
}
use mathlib.Core.Option
use foxhttp.Parser.JsonParser.{JsonConfig, remove_comments, take_commas, preprocess_json}

some_not_none : {A : Type 0} {a : A} (o : Option A) → o ≡ some a → o ≢ none
some_not_none o e q = cc

later_none : (o : Option ℕ) → Option.map suc o ≡ none → o ≡ none
later_none none e = refl
later_none (some i) e = cc

comments-length : (erasing : Bool) (s : Bytes) → length (remove_comments erasing s) ≤ length s
unfolding remove_comments
comments-length true [] = omega arith
comments-length false [] = omega arith
comments-length true (c ∷ s) = ground (arith, comments-length true s, comments-length false s)
comments-length false (c ∷ s) = elim (Bool-cases (starts_with (c ∷ s) (codes "//"))) [
  | inl here ↦ rw here (omega (arith, comments-length true s))
  | inr other ↦ rw other (omega (arith, comments-length false s))
]

commas-length : (key s : Bytes) → length (take_commas key s) ≤ length s
commas-length key [] = omega arith
commas-length key (c ∷ s) = elim (Bool-cases (starts_with (c ∷ s) key)) [
  | inl here ↦ rw here (omega (arith, commas-length key s))
  | inr other ↦ rw other (omega (arith, commas-length key s))
]

-- Without a comment nothing is erased, and with one the text gets shorter.
no_comment : (s : Bytes) → find_text (codes "//") s ≡ none → remove_comments false s ≡ s
unfolding find_text remove_comments
no_comment [] e = refl
no_comment (c ∷ s) e = elim (Bool-cases (starts_with (c ∷ s) (codes "//"))) [
  | inl here ↦
      let first : find_text (codes "//") (c ∷ s) ≡ some 0 = rw here refl in
      absurd (some_not_none _ first e)
  | inr other ↦ rw other (ap (◌∷◌ c) (no_comment s (later_none _ (sym (rw other refl) ∙ e))))
]

comment_found :
    (s : Bytes) (i : ℕ)
    → find_text (codes "//") s ≡ some i
    → length (remove_comments false s) < length s
unfolding find_text remove_comments
comment_found [] i e = absurd (cc)
comment_found (c ∷ s) i e = elim (Bool-cases (starts_with (c ∷ s) (codes "//"))) [
  | inl here ↦ rw here (omega (arith, comments-length true s))
  | inr other ↦ elim (Option-cases (find_text (codes "//") s)) [
    | inl q ↦
        absurd (some_not_none (find_text (codes "//") (c ∷ s)) e (rw (find_text, other, q) refl))
    | inr (j, q) ↦ rw other (omega (arith, comment_found s j q))
  ]
]

no_comma : (key s : Bytes) → find_text key s ≡ none → take_commas key s ≡ s
unfolding find_text
no_comma key [] e = refl
no_comma key (c ∷ s) e = elim (Bool-cases (starts_with (c ∷ s) key)) [
  | inl here ↦
      let first : find_text key (c ∷ s) ≡ some 0 = rw here refl in absurd (some_not_none _ first e)
  | inr other ↦ rw other (ap (◌∷◌ c) (no_comma key s (later_none _ (sym (rw other refl) ∙ e))))
]

comma_found :
    (key s : Bytes) (i : ℕ)
    → is_empty key ≡ false
    → find_text key s ≡ some i
    → length (take_commas key s) < length s
unfolding find_text
comma_found key [] i k e = absurd (some_not_none (find_text key []) e (rw k refl))
comma_found key (c ∷ s) i k e = elim (Bool-cases (starts_with (c ∷ s) key)) [
  | inl here ↦ rw here (omega (arith, commas-length key s))
  | inr other ↦ elim (Option-cases (find_text key s)) [
    | inl q ↦ absurd (some_not_none (find_text key (c ∷ s)) e (rw (find_text, other, q) refl))
    | inr (j, q) ↦ rw other (omega (arith, comma_found key s j k q))
  ]
]

cleaned_same :
    (s : Bytes)
    → take_commas (codes ",}") (remove_comments false s) ≡ s
    → (find_text (codes "//") s ≡ none) × (find_text (codes ",}") s ≡ none)
cleaned_same s e = elim (Option-cases (find_text (codes "//") s)) [
  | inr (i, q) ↦
      let shorter = comment_found s i q in
      let kept = commas-length (codes ",}") (remove_comments false s) in
      absurd (omega (arith, shorter, kept, ap length e))
  | inl q ↦ elim (Option-cases (find_text (codes ",}") s)) [
    | inr (i, p) ↦
        let whole : take_commas (codes ",}") s ≡ s =
          ap (take_commas (codes ",}")) (sym (no_comment s q)) ∙ e in
        absurd (omega (arith, comma_found (codes ",}") s i refl p, ap length whole))
    | inl p ↦ (q, p)
  ]
]

-- With neither comments nor trailing commas allowed, which is the default, a text reaches the JSON
-- library as it came exactly if it holds no "//" and no ",}", in a string or outside: what holds
-- either is changed, and ",]" is left in.
pub preprocess_json-same_iff :
    (config : JsonConfig) (s : Bytes)
    → config.allow_comments ≡ false
    → config.allow_trailing_commas ≡ false
    → (preprocess_json config s ≡ s)
      ↔ ((find_text (codes "//") s ≡ none) × (find_text (codes ",}") s ≡ none))
unfolding preprocess_json
preprocess_json-same_iff config s a b =
    rw (preprocess_json, a, b)
      (
        cleaned_same s,
        λ h. ap (take_commas (codes ",}")) (no_comment s h.0) ∙ no_comma (codes ",}") s h.1,
      )
