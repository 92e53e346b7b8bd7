-- ===== src/Parser/Field/Search.antt =====
-- Searches in a header value: `std::string::find` and the texts in quotes.
use foxhttp.Prelude.{
  ℕ, ◌+◌, ◌<◌, ◌≡◌, refl, sym, ap, ◌∙◌, ◌≢◌, false, none, some, [], ◌∷◌, ◌++◌, append_assoc, arith,
  ne→==, length, drop, length-append, take-length-append, drop-length-append, drop-add, All-append,
  Bytes, starts_with, Lacks, find-append, find_text, find_text-front,
}
use foxhttp.Parser.Multipart.{quoted_value}

-- A text is not found where one of its characters is missing.
starts_with-absent : (p q s : Bytes) (c : ℕ) → Lacks c s → starts_with s (p ++ c ∷ q) ≡ false
starts_with-absent [] q [] c h = refl
starts_with-absent [] q (y ∷ s) c h = rw (ne→== y c h.0) refl
starts_with-absent (d ∷ p) q [] c h = refl
starts_with-absent (d ∷ p) q (y ∷ s) c h = rw (starts_with-absent p q s c h.1) (ground arith)

pub find_text-absent : (p q s : Bytes) (c : ℕ) → Lacks c s → find_text (p ++ c ∷ q) s ≡ none
unfolding find_text
find_text-absent [] q [] c h = refl
find_text-absent (d ∷ p) q [] c h = refl
find_text-absent p q (y ∷ s) c h =
    rw (starts_with-absent p q (y ∷ s) c h, find_text-absent p q s c h.1) refl

-- Nor where that character comes too late.
starts_with-late :
    (p q b z : Bytes) (c : ℕ)
    → Lacks c b
    → length p < length b
    → starts_with (b ++ c ∷ z) (p ++ c ∷ q) ≡ false
starts_with-late p q [] z c h k = absurd (omega (arith, k))
starts_with-late [] q (y ∷ b) z c h k = rw (ne→== y c h.0) refl
starts_with-late (d ∷ p) q (y ∷ b) z c h k =
    rw (starts_with-late p q b z c h.1 (ground arith)) (ground arith)

pub find_text-behind :
    (d : ℕ) (p q a x : Bytes) (c : ℕ)
    → Lacks c a
    → Lacks c (d ∷ p)
    → find_text (d ∷ p ++ c ∷ q) (a ++ ((d ∷ p) ++ (c ∷ (q ++ x)))) ≡ some (length a)
unfolding find_text
find_text-behind d p q [] x c h k =
    let same_text : (d ∷ p ++ c ∷ q) ++ x ≡ (d ∷ p) ++ (c ∷ (q ++ x)) =
      append_assoc (d ∷ p) (c ∷ q) x in
    ap (find_text (d ∷ p ++ c ∷ q)) (sym same_text) ∙ find_text-front d (p ++ c ∷ q) [] x tt
find_text-behind d p q (y ∷ a) x c h k =
    let b = (y ∷ a) ++ (d ∷ p) in
    let clean : Lacks c b = All-append (λ v. v ≢ c) (y ∷ a) (d ∷ p) h k in
    let longer : length (d ∷ p) < length b = rw (length-append (y ∷ a) (d ∷ p)) (omega arith) in
    let late = starts_with-late (d ∷ p) q b (q ++ x) c clean longer in
    let late' : starts_with ((y ∷ a) ++ ((d ∷ p) ++ (c ∷ (q ++ x)))) (d ∷ p ++ c ∷ q) ≡ false =
      ap (λ s. starts_with s (d ∷ p ++ c ∷ q)) (sym (append_assoc (y ∷ a) (d ∷ p) (c ∷ (q ++ x))))
      ∙ late in
    rw (late', find_text-behind d p q a x c h.1 k) refl

-- A value in quotes behind the first occurrence of its key.
pub quoted_behind :
    (key front value z : Bytes)
    → find_text key (front ++ (key ++ (value ++ 34 ∷ z))) ≡ some (length front)
    → Lacks 34 value
    → quoted_value key (front ++ (key ++ (value ++ 34 ∷ z))) ≡ some value
unfolding quoted_value
quoted_behind key front value z e h =
    let rest = value ++ 34 ∷ z in
    let behind : drop (length front + length key) (front ++ (key ++ rest)) ≡ rest =
      drop-add (length front) (length key) (front ++ (key ++ rest))
      ∙ (ap (drop (length key)) (drop-length-append front (key ++ rest))
          ∙ drop-length-append key rest) in
    rw (quoted_value, e, behind, find-append 34 value z h, behind)
      (ap some (take-length-append value (34 ∷ z)))
