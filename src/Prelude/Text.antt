-- ===== src/Prelude/Text.antt =====
-- `std::string` as a list of bytes, with the searches that the sources make.
use Prim.Native.Char.{code}
use Prim.Native.String.{String}
use Prim.Native.Nat.{ℕ, zero, suc, ◌<◌}
use mathlib.Core.Path.{◌≡◌, refl, ap, ◌∙◌}
use mathlib.Core.Logic.{◌↔◌, ◌≢◌, inl, inr}
use mathlib.Core.List.{List, [], ◌∷◌, ◌++◌}
use mathlib.Core.Option
use mathlib.Core.Option.{Option, none, some}
use mathlib.Core.Bool.{Bool, true, false, ◌&&◌, ◌||◌}
use native.Mathlib.Omega.{arith}
use foxhttp.Prelude.Tests.{if◌then◌else◌, ◌==◌, ne→==, Option-cases}
use foxhttp.Prelude.Lists.{length, take, drop, is_empty, All}

abbrev pub Bytes : Type 0
Bytes = List ℕ

-- The bytes of an ASCII literal.
abbrev pub codes : String → Bytes
codes String.[] = []
codes (String.◌∷◌ c s) = code c ∷ codes s

-- `a == b` on strings.
abbrev pub same : Bytes → Bytes → Bool
same [] [] = true
same [] (y ∷ ys) = false
same (x ∷ xs) [] = false
same (x ∷ xs) (y ∷ ys) = (x == y) && same xs ys

-- `s.find(c)`; `npos` is `none`.
abbrev pub find : ℕ → Bytes → Option ℕ
find c [] = none
find c (x ∷ xs) = if x == c then some 0 else Option.map suc (find c xs)

-- `s.find(c) != npos`
abbrev pub has : ℕ → Bytes → Bool
has c [] = false
has c (x ∷ xs) = if x == c then true else has c xs

-- `boost::starts_with(s, p)`
abbrev pub starts_with : Bytes → Bytes → Bool
starts_with s [] = true
starts_with [] (x ∷ p) = false
starts_with (y ∷ s) (x ∷ p) = (y == x) && starts_with s p

abbrev pub Lacks : ℕ → Bytes → Type 0
Lacks c s = All (λ x. x ≢ c) s

pub same_iff : (a b : Bytes) → (same a b ≡ true) ↔ (a ≡ b)
same_iff [] [] = ground arith
same_iff [] (y ∷ ys) = ground arith
same_iff (x ∷ xs) [] = ground arith
same_iff (x ∷ xs) (y ∷ ys) = ground (arith, same_iff xs ys)

pub same_refl : (a : Bytes) → same a a ≡ true
same_refl a = (same_iff a a).1 refl

pub find-append : (c : ℕ) (a b : Bytes) → Lacks c a → find c (a ++ c ∷ b) ≡ some (length a)
find-append c [] b h = ground arith
find-append c (x ∷ a) b h = ground (arith, find-append c a b h.1)

pub find-eq-none : (c : ℕ) (a : Bytes) → Lacks c a → find c a ≡ none
find-eq-none c [] h = refl
find-eq-none c (x ∷ a) h = ground (arith, find-eq-none c a h.1)

pub find-lt-length : (c : ℕ) (a : Bytes) (i : ℕ) → find c a ≡ some i → i < length a
find-lt-length c [] i e = cc
find-lt-length c (x ∷ a) i e = elim (Option-cases (find c a)) [
  | inl q ↦ ground arith
  | inr (j, q) ↦ ground (arith, find-lt-length c a j q)
]

pub find-Lacks : (c : ℕ) (s : Bytes) → find c s ≡ none → Lacks c s
find-Lacks c [] e = tt
find-Lacks c (x ∷ s) e = elim (Option-cases (find c s)) [
  | inl q ↦ (ground arith, find-Lacks c s q)
  | inr (j, q) ↦ absurd (ground arith)
]

-- A position that is found splits the text at the first occurrence.
pub find_split :
    (c : ℕ) (s : Bytes) (i : ℕ)
    → find c s ≡ some i
    → (s ≡ take i s ++ c ∷ drop (suc i) s) × Lacks c (take i s)
find_split c [] i e = cc
find_split c (x ∷ s) zero e = elim (Option-cases (find c s)) [
  | inl q ↦ (ground arith, tt)
  | inr (j, q) ↦ (ground arith, tt)
]
find_split c (x ∷ s) (suc i) e = elim (Option-cases (find c s)) [
  | inl q ↦ absurd (ground arith)
  | inr (j, q) ↦
      let (here, before) = find_split c s i (ground arith) in
      (ap (◌∷◌ x) here, (ground arith, before))
]

pub drop_at : (c : ℕ) (s : Bytes) (i : ℕ) → find c s ≡ some i → drop i s ≡ c ∷ drop (suc i) s
drop_at c [] i e = cc
drop_at c (x ∷ s) zero e = elim (Option-cases (find c s)) [
  | inl q ↦ ground arith
  | inr (j, q) ↦ ground arith
]
drop_at c (x ∷ s) (suc i) e = elim (Option-cases (find c s)) [
  | inl q ↦ absurd (ground arith)
  | inr (j, q) ↦ drop_at c s i (ground arith)
]

-- `std::getline(s, line, d)` repeated to the end: a last line is read only if it is not empty.
abbrev pub begin_line : ℕ → List Bytes → List Bytes
begin_line x [] = (x ∷ []) ∷ []
begin_line x (line ∷ lines) = (x ∷ line) ∷ lines

abbrev pub getlines : ℕ → Bytes → List Bytes
getlines d [] = []
getlines d (x ∷ s) = if x == d then [] ∷ getlines d s else begin_line x (getlines d s)

-- `boost::ends_with(s, p)`
abbrev pub has_suffix : Bytes → Bytes → Bool
has_suffix [] p = is_empty p
has_suffix (x ∷ s) p = same (x ∷ s) p || has_suffix s p

pub getlines-append :
    (d : ℕ) (line rest : Bytes)
    → Lacks d line
    → getlines d (line ++ d ∷ rest) ≡ line ∷ getlines d rest
getlines-append d [] rest h = ground arith
getlines-append d (x ∷ line) rest h = rw (ne→== x d h.0, getlines-append d line rest h.1)

pub getlines-one :
    (d x : ℕ) (line : Bytes) → Lacks d (x ∷ line) → getlines d (x ∷ line) ≡ (x ∷ line) ∷ []
getlines-one d x [] h = rw (ne→== x d h.0)
getlines-one d x (y ∷ line) h = rw (ne→== x d h.0, getlines-one d y line h.1)

-- Lines written one behind the other with `d` between them.
abbrev pub join : ℕ → List Bytes → Bytes
join d [] = []
join d (line ∷ []) = line
join d (line ∷ next ∷ lines) = line ++ d ∷ join d (next ∷ lines)

-- Text that `getline` reads back: not empty and without the separator.
abbrev pub IsLine : ℕ → Bytes → Type 0
IsLine d line = (is_empty line ≡ false) × Lacks d line

pub getlines-join :
    (d : ℕ) (lines : List Bytes) → All (IsLine d) lines → getlines d (join d lines) ≡ lines
getlines-join d [] h = refl
getlines-join d ([] ∷ []) h = cc
getlines-join d ((x ∷ line) ∷ []) h = getlines-one d x line h.0.1
getlines-join d (line ∷ next ∷ lines) h =
    getlines-append d line (join d (next ∷ lines)) h.0.1
    ∙ ap (◌∷◌ line) (getlines-join d (next ∷ lines) h.1)

pub ne_of_same : (a b : Bytes) → same a b ≡ false → a ≢ b
ne_of_same a b h = ground (arith, same_iff a b)

-- `s.find(text)`
unfoldable pub find_text : Bytes → Bytes → Option ℕ
find_text text [] = if is_empty text then some 0 else none
find_text text (c ∷ s) =
    if starts_with (c ∷ s) text then some 0 else Option.map suc (find_text text s)

pub starts_with-front : (p x : Bytes) → starts_with (p ++ x) p ≡ true
starts_with-front [] x = refl
starts_with-front (c ∷ p) x = rw (starts_with-front p x) (ground arith)

-- What stands behind a text without its first character is found there.
pub find_text-front :
    (c : ℕ) (p a x : Bytes) → Lacks c a → find_text (c ∷ p) (a ++ ((c ∷ p) ++ x)) ≡ some (length a)
unfolding find_text
find_text-front c p [] x h = rw (starts_with-front (c ∷ p) x) refl
find_text-front c p (y ∷ a) x h = rw (ne→== y c h.0, find_text-front c p a x h.1) refl

-- What is left from the first to the last character for which the test fails.
abbrev pub trim_front_by : (ℕ → Bool) → Bytes → Bytes
trim_front_by blank [] = []
trim_front_by blank (c ∷ s) = let rest = trim_front_by blank s in if blank c then rest else c ∷ s

abbrev pub trim_back_by : (ℕ → Bool) → Bytes → Bytes
trim_back_by blank [] = []
trim_back_by blank (c ∷ s) =
    let rest = trim_back_by blank s in if is_empty rest && blank c then [] else c ∷ rest
