-- ===== src/Router/Table/Normalize.antt =====
-- What `normalize_path` makes of a path.
use foxhttp.Prelude.{
  ℕ, suc, ◌-◌, ◌≡◌, refl, sym, ◌∙◌, ◌≢◌, inl, inr, true, false, List, [], ◌∷◌, ◌++◌, append-nil,
  arith, ◌==◌, Bool-cases, length, length-append, take-length-append, All, Bytes, Lacks,
}
use foxhttp.Router.Table.{
  ends_with, strip_trailing_slash, normalize_path, segments_from, count_segments,
}

ends_with-last : (c d : ℕ) (s : Bytes) → ends_with c (s ++ d ∷ []) ≡ (d == c)
unfolding ends_with
ends_with-last c d [] = refl
ends_with-last c d (x ∷ []) = refl
ends_with-last c d (x ∷ y ∷ s) = ends_with-last c d (y ∷ s)

strip-slash : (s : Bytes) → s ≢ [] → strip_trailing_slash (s ++ b'/' ∷ []) ≡ s
unfolding strip_trailing_slash
strip-slash [] h = absurd (h refl)
strip-slash (x ∷ s) h =
    let longer : length (x ∷ s ++ b'/' ∷ []) ≡ suc (length (x ∷ s)) =
      omega (arith, length-append (x ∷ s) (b'/' ∷ [])) in
    let cut : length (x ∷ s ++ b'/' ∷ []) - 1 ≡ length (x ∷ s) =
      omega (arith, length-append (x ∷ s) (b'/' ∷ [])) in
    ground
      (arith, longer, cut, ends_with-last b'/' b'/' (x ∷ s), take-length-append (x ∷ s) (b'/' ∷ []))

strip-plain : (s : Bytes) → ends_with b'/' s ≡ false → strip_trailing_slash s ≡ s
unfolding strip_trailing_slash
strip-plain s h = ground arith

-- A trailing slash makes no difference to a path that ends otherwise.
pub normalize_path-trailing_slash :
    (path : Bytes)
    → path ≢ []
    → ends_with b'/' path ≡ false
    → normalize_path (path ++ b'/' ∷ []) ≡ normalize_path path
unfolding normalize_path
normalize_path-trailing_slash [] p h = absurd (p refl)
normalize_path-trailing_slash (c ∷ s) p h = elim (Bool-cases (c == b'/')) [
  | inl e ↦ rw e (strip-slash (c ∷ s) (cc) ∙ sym (strip-plain (c ∷ s) h))
  | inr e ↦
      rw e
        (strip-slash (b'/' ∷ c ∷ s) (cc) ∙ sym (strip-plain (b'/' ∷ c ∷ s) (unfold ends_with in h)))
]

-- Nor does a missing slash at the front.
pub normalize_path-leading_slash :
    (c : ℕ) (s : Bytes) → c ≢ b'/' → normalize_path (b'/' ∷ c ∷ s) ≡ normalize_path (c ∷ s)
unfolding normalize_path
normalize_path-leading_slash c s h = ground arith

segments_inside :
    (v s : Bytes) → Lacks b'/' v → segments_from true (v ++ b'/' ∷ s) ≡ segments_from false s
unfolding segments_from
segments_inside [] s h = refl
segments_inside (c ∷ v) s (p, h) = ground (arith, segments_inside v s h)

-- "/a/b/..." for the segments a, b, ...
abbrev join : List Bytes → Bytes
join [] = []
join (v ∷ vs) = b'/' ∷ v ++ join vs

segments_inside_end : (v : Bytes) → Lacks b'/' v → segments_from true v ≡ 0
unfolding segments_from
segments_inside_end [] h = refl
segments_inside_end (c ∷ v) (p, h) = ground (arith, segments_inside_end v h)

segments_from-join :
    (v : Bytes) (vs : List Bytes)
    → Lacks b'/' v
    → All (λ w. (w ≢ []) × Lacks b'/' w) vs
    → segments_from true (v ++ join vs) ≡ length vs
unfolding segments_from
segments_from-join v [] h a = rw (append-nil v) (segments_inside_end v h)
segments_from-join v ([] ∷ vs) h ((p, _), a) = absurd (p refl)
segments_from-join v ((c ∷ w) ∷ vs) h ((p, (q, l)), a) =
    segments_inside v ((c ∷ w) ++ join vs) h ∙ ground (arith, segments_from-join w vs l a)

-- A path of non-empty segments has as many segments as that.
pub count_segments-join :
    (vs : List Bytes) → All (λ w. (w ≢ []) × Lacks b'/' w) vs → count_segments (join vs) ≡ length vs
unfolding count_segments
count_segments-join [] a = refl
count_segments-join ([] ∷ vs) ((p, _), a) = absurd (p refl)
count_segments-join ((c ∷ w) ∷ vs) ((p, (q, l)), a) = ground (arith, segments_from-join w vs l a)
