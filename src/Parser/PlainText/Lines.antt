-- ===== src/Parser/PlainText/Lines.antt =====
-- The two passes of `normalize_line_endings` against one pass over the lines.
use foxhttp.Prelude.{
  ◌≡◌, refl, ap, inl, inr, true, false, ◌&&◌, [], ◌∷◌, arith, ◌==◌, if◌then◌else◌, ne→==,
  Bool-cases, Bytes, Lacks,
}
use foxhttp.Parser.PlainText.{replace_crlf, replace_cr, normalize_line_endings}

-- Text with every line ending, "\r\n", "\r" or "\n", written as "\n".
unfoldable pub unix : Bytes → Bytes
unix [] = []
unix (c ∷ []) = (if c == 13 then 10 else c) ∷ []
unix (c ∷ d ∷ s) = elim ((c == 13) && (d == 10)) [
  | true ↦ 10 ∷ unix s
  | false ↦ (if c == 13 then 10 else c) ∷ unix (d ∷ s)
]

-- The two passes write every line ending, "\r\n", "\r" or "\n", as "\n", as one pass over the
-- text does that sees each ending whole.
pub normalize_line_endings-unix : (s : Bytes) → normalize_line_endings s ≡ unix s
unfolding normalize_line_endings replace_crlf replace_cr unix
normalize_line_endings-unix [] = refl
normalize_line_endings-unix (c ∷ []) = refl
normalize_line_endings-unix (c ∷ d ∷ s) = elim (Bool-cases ((c == 13) && (d == 10))) [
  | inl e ↦ rw (e, replace_crlf, unix) (ap (◌∷◌ 10) (normalize_line_endings-unix s))
  | inr e ↦
      rw (e, replace_crlf, unix)
        (ap (λ t. (if c == 13 then 10 else c) ∷ t) (normalize_line_endings-unix (d ∷ s)))
]

-- Normalised text has no '\r'.
pub normalize_line_endings-Lacks : (s : Bytes) → Lacks 13 (normalize_line_endings s)
unfolding normalize_line_endings replace_cr
normalize_line_endings-Lacks s = none_left (replace_crlf s)
  where
    none_left : (s : Bytes) → Lacks 13 (replace_cr s)
    none_left [] = tt
    none_left (c ∷ s) = (ground arith, none_left s)

normalize-plain : (s : Bytes) → Lacks 13 s → normalize_line_endings s ≡ s
unfolding normalize_line_endings replace_crlf replace_cr
normalize-plain [] h = refl
normalize-plain (c ∷ []) h = rw (ne→== c 13 h.0)
normalize-plain (c ∷ d ∷ s) h =
    rw (ne→== c 13 h.0, replace_crlf, ne→== c 13 h.0) (ap (◌∷◌ c) (normalize-plain (d ∷ s) h.1))

-- Normalising again changes nothing.
pub normalize_line_endings-again :
    (s : Bytes) → normalize_line_endings (normalize_line_endings s) ≡ normalize_line_endings s
normalize_line_endings-again s =
    normalize-plain (normalize_line_endings s) (normalize_line_endings-Lacks s)
