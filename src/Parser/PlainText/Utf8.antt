-- ===== src/Parser/PlainText/Utf8.antt =====
-- What `is_valid_utf8` accepts.
use foxhttp.Prelude.{
  ℕ, ◌+◌, ◌/◌, ◌%◌, ◌<◌, ◌≡◌, refl, ◌∙◌, inl, inr, true, false, List, [], ◌∷◌, ◌++◌, arith, ltb,
  ◌==◌, if◌then◌else◌, ltb→lt, lt→ltb, Bool-cases, All, Bytes,
}
use foxhttp.Parser.PlainText.{is_valid_utf8}

-- The bytes of a code point.
abbrev pub encode : ℕ → Bytes
encode p =
    if ltb p 128
    then p ∷ []
    else if ltb p 2048
    then (192 + p / 64) ∷ (128 + p % 64) ∷ []
    else if ltb p 65536
    then (224 + p / 4096) ∷ (128 + p / 64 % 64) ∷ (128 + p % 64) ∷ []
    else (240 + p / 262144) ∷ (128 + p / 4096 % 64) ∷ (128 + p / 64 % 64) ∷ (128 + p % 64) ∷ []

abbrev pub encode_all : List ℕ → Bytes
encode_all [] = []
encode_all (p ∷ ps) = encode p ++ encode_all ps

ascii_step : (a : ℕ) (s : Bytes) → a < 128 → is_valid_utf8 (a ∷ s) ≡ is_valid_utf8 s
unfolding is_valid_utf8
ascii_step a [] h = lt→ltb a 128 h
ascii_step a (b ∷ []) h = rw (lt→ltb a 128 h, is_valid_utf8)
ascii_step a (b ∷ c ∷ []) h = rw (lt→ltb a 128 h, is_valid_utf8)
ascii_step a (b ∷ c ∷ d ∷ s) h = rw (lt→ltb a 128 h, is_valid_utf8)

two_step :
    (a b : ℕ) (s : Bytes) → a / 32 ≡ 6 → b / 64 ≡ 2 → is_valid_utf8 (a ∷ b ∷ s) ≡ is_valid_utf8 s
unfolding is_valid_utf8
two_step a b s ha hb =
    let high : ltb a 128 ≡ false = ground arith in
    let lead : (a / 32 == 6) ≡ true = ground arith in
    let continued : (b / 64 == 2) ≡ true = ground arith in by_length s high lead continued
  where
    by_length :
        (s : Bytes)
        → ltb a 128 ≡ false
        → (a / 32 == 6) ≡ true
        → (b / 64 == 2) ≡ true
        → is_valid_utf8 (a ∷ b ∷ s) ≡ is_valid_utf8 s
    by_length [] high lead continued = rw (high, lead, continued, is_valid_utf8)
    by_length (c ∷ []) high lead continued = rw (high, lead, continued, is_valid_utf8)
    by_length (c ∷ d ∷ s) high lead continued = rw (high, lead, continued, is_valid_utf8)

three_step :
    (a b c : ℕ) (s : Bytes)
    → a / 16 ≡ 14
    → b / 64 ≡ 2
    → c / 64 ≡ 2
    → is_valid_utf8 (a ∷ b ∷ c ∷ s) ≡ is_valid_utf8 s
unfolding is_valid_utf8
three_step a b c s ha hb hc =
    let high : ltb a 128 ≡ false = ground arith in
    let not_two : (a / 32 == 6) ≡ false = ground arith in
    let lead : (a / 16 == 14) ≡ true = ground arith in
    let continued : (b / 64 == 2) ≡ true = ground arith in
    let again : (c / 64 == 2) ≡ true = ground arith in by_length s high not_two lead continued again
  where
    by_length :
        (s : Bytes)
        → ltb a 128 ≡ false
        → (a / 32 == 6) ≡ false
        → (a / 16 == 14) ≡ true
        → (b / 64 == 2) ≡ true
        → (c / 64 == 2) ≡ true
        → is_valid_utf8 (a ∷ b ∷ c ∷ s) ≡ is_valid_utf8 s
    by_length [] high not_two lead continued again =
        rw (high, not_two, lead, continued, again, is_valid_utf8)
    by_length (d ∷ s) high not_two lead continued again =
        rw (high, not_two, lead, continued, again, is_valid_utf8)

four_step :
    (a b c d : ℕ) (s : Bytes)
    → a / 8 ≡ 30
    → b / 64 ≡ 2
    → c / 64 ≡ 2
    → d / 64 ≡ 2
    → is_valid_utf8 (a ∷ b ∷ c ∷ d ∷ s) ≡ is_valid_utf8 s
unfolding is_valid_utf8
four_step a b c d s ha hb hc hd =
    let high : ltb a 128 ≡ false = ground arith in
    let not_two : (a / 32 == 6) ≡ false = ground arith in
    let not_three : (a / 16 == 14) ≡ false = ground arith in
    let lead : (a / 8 == 30) ≡ true = ground arith in
    let continued : (b / 64 == 2) ≡ true = ground arith in
    let again : (c / 64 == 2) ≡ true = ground arith in
    let last : (d / 64 == 2) ≡ true = ground arith in
    rw (high, not_two, not_three, lead, continued, again, last, is_valid_utf8)

encode_step : (p : ℕ) (s : Bytes) → p < 1114112 → is_valid_utf8 (encode p ++ s) ≡ is_valid_utf8 s
encode_step p s h = elim (Bool-cases (ltb p 128)) [
  | inl one ↦ rw one (ascii_step p s (ltb→lt p 128 one))
  | inr more ↦ elim (Bool-cases (ltb p 2048)) [
    | inl two ↦
        rw (more, two) (two_step (192 + p / 64) (128 + p % 64) s (ground arith) (omega arith))
    | inr many ↦ elim (Bool-cases (ltb p 65536)) [
      | inl three ↦
          rw (more, many, three)
            (three_step (224 + p / 4096) (128 + p / 64 % 64) (128 + p % 64) s (ground arith)
              (omega arith) (omega arith))
      | inr four ↦
          rw (more, many, four)
            (four_step (240 + p / 262144) (128 + p / 4096 % 64) (128 + p / 64 % 64) (128 + p % 64) s
              (ground arith) (omega arith) (omega arith) (omega arith))
    ]
  ]
]

-- Every text that is written in UTF-8 is accepted: the test holds of the encoding of any code points.
pub is_valid_utf8-encode_all :
    (ps : List ℕ) → All (λ p. p < 1114112) ps → is_valid_utf8 (encode_all ps) ≡ true
unfolding is_valid_utf8
is_valid_utf8-encode_all [] h = refl
is_valid_utf8-encode_all (p ∷ ps) h =
    encode_step p (encode_all ps) h.0 ∙ is_valid_utf8-encode_all ps h.1
