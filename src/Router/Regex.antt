-- ===== src/Router/Regex.antt =====
-- The part of `std::regex` (ECMAScript grammar) that patterns use: plain and escaped characters,
-- the group `([^/]+)`, and the anchors of a whole match.
pub mod Laws
use foxhttp.Prelude.{
  ℕ, Bool, true, false, ◌||◌, Option, none, some, List, [], ◌∷◌, ◌++◌, Bytes, codes, has, is_empty,
  starts_with, ◌==◌, if◌then◌else◌,
}
use mathlib.Core.Option

-- One element of a compiled expression: a character, or a capture of one or more bytes but '/'.
pub data Item : Type 0 where
  chr : ℕ → Item
  group : Item

abbrev pub backslash : ℕ
backslash = 92

-- The characters with a meaning of their own, `R"(.^$|()[]{}*+?\)"`.
abbrev pub specials : Bytes
specials = codes ".^$|()[]{}*+?" ++ backslash ∷ []

abbrev pub segment_group : Bytes
segment_group = codes "([^/]+)"

pub data Mode : Type 0 where
  plain escaped : Mode
  skip : ℕ → Mode

-- `none` stands for `std::regex_error`, and for all that no pattern writes.
unfoldable pub compile : Mode → Bytes → Option (List Item)
compile mode [] = none
compile (skip ℕ.zero) (c ∷ s) = compile plain s
compile (skip (ℕ.suc n)) (c ∷ s) = compile (skip n) s
compile escaped (c ∷ s) =
    let rest = compile plain s in if has c specials then Option.map (◌∷◌ (chr c)) rest else none
compile plain (c ∷ s) =
    let verbatim = compile plain s in
    let quoted = compile escaped s in
    let after = compile (skip 5) s in
    if has c specials
    then if c == backslash
      then quoted
      else if c == b'$'
      then if is_empty s then some [] else none
      else if starts_with (c ∷ s) segment_group
      then Option.map (◌∷◌ group) after
      else none
    else Option.map (◌∷◌ (chr c)) verbatim

-- The captures of `([^/]+)` followed by `k`: the longest that lets `k` match, at least one byte.
unfoldable pub grab : (Bytes → Option (List Bytes)) → Bytes → Bytes → Option (List Bytes)
grab k taken [] = none
grab k taken (c ∷ s) =
    let more = grab k (taken ++ c ∷ []) s in
    let stop = Option.map (◌∷◌ (taken ++ c ∷ [])) (k s) in
    if c == b'/' then none else elim more [ some caught ↦ some caught | none ↦ stop ]

-- `std::regex_match` with the captures.
unfoldable pub match : List Item → Bytes → Option (List Bytes)
match [] [] = some []
match [] (c ∷ s) = none
match (chr d ∷ items) [] = none
match (chr d ∷ items) (c ∷ s) = if c == d then match items s else none
match (group ∷ items) s = grab (match items) [] s
