-- ===== src/Router/Pattern/Laws.antt =====
-- What a pattern means: the text between its parameters literally, each parameter as a segment.
use foxhttp.Prelude.{
  ℕ, zero, suc, ◌+◌, ◌-◌, ◌<◌, ◌≡◌, refl, ◌≢◌, ap, ◌∙◌, some, List, [], ◌∷◌, ◌++◌, Bytes, Lacks,
  All, append_assoc, append-nil, arith, Option-cases, inl, inr, codes, find, take, drop, length,
  length-append, is_empty, map, ok, find-append, find-eq-none, take-length-append,
  drop-length-append, drop-past, drop-add, false,
}
use mathlib.Core.Option
use native.Mathlib.Nat.{add_assoc}
use foxhttp.Router.Regex.{Item, chr, group, compile, plain, segment_group}
use foxhttp.Router.Pattern.{regex_escape, parse_from, parse_pattern}

suc-sub_one : (n : ℕ) → suc n - 1 ≡ n
suc-sub_one n = omega arith

-- Escaping is undone by the compiler, whatever follows.
compile-regex_escape :
    (s r : Bytes)
    → compile plain (regex_escape s ++ r) ≡ Option.map (◌++◌ (map chr s)) (compile plain r)
unfolding compile regex_escape
compile-regex_escape [] r = elim (Option-cases (compile plain r)) [
  | inl q ↦ ground arith
  | inr (x, q) ↦ ground arith
]
compile-regex_escape (c ∷ s) r = elim (Option-cases (compile plain r)) [
  | inl q ↦ ground (arith, compile-regex_escape s r)
  | inr (x, q) ↦ ground (arith, compile-regex_escape s r)
]

compile-segment_group :
    (r : Bytes) → compile plain (segment_group ++ r) ≡ Option.map (◌∷◌ group) (compile plain r)
unfolding compile
compile-segment_group r = refl

-- The pieces of a pattern: texts that end at a parameter, with its name, and the text at the end.
abbrev pub Pieces : Type 0
Pieces = List (Bytes × Bytes)

abbrev pub spell : Pieces → Bytes → Bytes
spell [] last = last
spell ((text, name) ∷ ps) last = text ++ (b'{' ∷ name ++ (b'}' ∷ spell ps last))

abbrev pub IsPiece : Bytes × Bytes → Type 0
IsPiece (text, name) = Lacks b'{' text × (name ≢ []) × Lacks b'}' name

abbrev pub items_of : Pieces → Bytes → List Item
items_of [] last = map chr last
items_of ((text, name) ∷ ps) last = map chr text ++ group ∷ items_of ps last

abbrev pub names_of : Pieces → List Bytes
names_of = map (λ p. p.1)

-- The expression text that the loop writes.
abbrev written : Pieces → Bytes → Bytes
written [] last = regex_escape last
written ((text, name) ∷ ps) last = regex_escape text ++ (segment_group ++ written ps last)

compile-written :
    (ps : Pieces) (last : Bytes)
    → compile plain (written ps last ++ codes "$") ≡ some (items_of ps last)
unfolding compile
compile-written [] last =
    compile-regex_escape last (codes "$") ∙ ap some (append-nil (map chr last))
compile-written ((text, name) ∷ ps) last = rw (
  append_assoc (regex_escape text) (segment_group ++ written ps last) (codes "$"),
  compile-regex_escape text (segment_group ++ (written ps last ++ codes "$")),
  compile-segment_group (written ps last ++ codes "$"),
  compile-written ps last,
)

-- One round of the loop that finds a parameter.
pub parse_from_step :
    (fuel pos len : ℕ) (rest regex : Bytes) (names : List Bytes)
    → find b'{' rest ≡ some pos
    → find b'}' (drop pos rest) ≡ some len
    → is_empty (take (len - 1) (drop (pos + 1) rest)) ≡ false
    → parse_from (suc fuel) rest regex names
      ≡ parse_from fuel
          (drop (pos + len + 1) rest)
          ((regex ++ regex_escape (take pos rest)) ++ segment_group)
          (names ++ take (len - 1) (drop (pos + 1) rest) ∷ [])
unfolding parse_from
parse_from_step fuel pos len rest regex names p q r = ground arith

-- What the searches of a round find in a spelled pattern.
module _ (text name tail : Bytes) (lt : Lacks b'{' text) (ln : Lacks b'}' name) where
  rest_of : Bytes
  rest_of = text ++ (b'{' ∷ name ++ (b'}' ∷ tail))

  find_open : find b'{' rest_of ≡ some (length text)
  unfolding rest_of
  find_open = find-append b'{' text (name ++ (b'}' ∷ tail)) lt

  find_close : find b'}' (drop (length text) rest_of) ≡ some (suc (length name))
  unfolding rest_of
  find_close =
      rw (drop-length-append text (b'{' ∷ name ++ (b'}' ∷ tail)))
        (find-append b'}' (b'{' ∷ name) tail (omega arith, ln))

  name_found : take (suc (length name) - 1) (drop (length text + 1) rest_of) ≡ name
  unfolding rest_of
  name_found =
      rw (drop-past text (name ++ (b'}' ∷ tail)) b'{', suc-sub_one (length name))
        (take-length-append name (b'}' ∷ tail))

  rest_found : drop (length text + suc (length name) + 1) rest_of ≡ tail
  unfolding rest_of
  rest_found =
      rw
        (
          add_assoc (length text) (suc (length name)) 1,
          drop-add (length text) (suc (length name) + 1) rest_of,
          drop-length-append text (b'{' ∷ name ++ (b'}' ∷ tail)),
        )
        (drop-past (b'{' ∷ name) tail b'}')

is_empty_of_ne : (s : Bytes) → s ≢ [] → is_empty s ≡ false
is_empty_of_ne [] h = absurd (h refl)
is_empty_of_ne (c ∷ s) h = refl

-- One round over a piece: its text is escaped, its name is kept.
parse_from-piece :
    (fuel : ℕ) (text name tail regex : Bytes) (names : List Bytes)
    → Lacks b'{' text
    → name ≢ []
    → Lacks b'}' name
    → parse_from (suc fuel) (text ++ (b'{' ∷ name ++ (b'}' ∷ tail))) regex names
      ≡ parse_from fuel tail ((regex ++ regex_escape text) ++ segment_group) (names ++ name ∷ [])
unfolding rest_of
parse_from-piece fuel text name tail regex names lt nn ln =
    rw
      (
        name_found text name tail lt ln,
        rest_found text name tail lt ln,
        take-length-append text (b'{' ∷ name ++ (b'}' ∷ tail)),
      )
      at
      (parse_from_step fuel (length text) (suc (length name)) _ regex names
        (find_open text name tail lt ln) (find_close text name tail lt ln)
        (rw (name_found text name tail lt ln) (is_empty_of_ne name nn)))

length-piece :
    (text name tail : Bytes) → length tail < length (text ++ (b'{' ∷ name ++ (b'}' ∷ tail)))
length-piece text name tail =
    omega
      (arith, length-append text (b'{' ∷ name ++ (b'}' ∷ tail)), length-append name (b'}' ∷ tail))

parse_from-spell :
    (fuel : ℕ) (ps : Pieces) (last regex : Bytes) (names : List Bytes)
    → length (spell ps last) < fuel
    → All IsPiece ps
    → Lacks b'{' last
    → parse_from fuel (spell ps last) regex names
      ≡ ok (regex ++ written ps last, names ++ names_of ps)
parse_from-spell zero ps last regex names h a l = elim h [ ]
parse_from-spell (suc fuel) [] last regex names h a l =
    unfold parse_from in ground (arith, find-eq-none b'{' last l, append-nil names)
parse_from-spell (suc fuel) ((text, name) ∷ ps) last regex names h ((lt, nn, ln), a) l =
    rw
      (
        parse_from-piece fuel text name (spell ps last) regex names lt nn ln,
        parse_from-spell fuel ps last ((regex ++ regex_escape text) ++ segment_group)
            (names ++ name ∷ []) (omega (arith, length-piece text name (spell ps last))) a l,
      )
      (simp append_assoc)

-- A pattern with named, closed parameters is read as its texts and parameters in order: each text
-- literally, each parameter as one segment, and the names as written.
pub parse_pattern-spell :
    (ps : Pieces) (last : Bytes)
    → All IsPiece ps
    → Lacks b'{' last
    → parse_pattern (spell ps last) ≡ ok (items_of ps last, names_of ps)
unfolding parse_pattern
parse_pattern-spell ps last a l =
    rw (parse_from-spell (suc (length (spell ps last))) ps last [] [] (omega arith) a l)
      (ground (arith, compile-written ps last))
