-- ===== src/Middleware/Auth/KeyValue.antt =====
-- What `parse_kv` reads from a list of parameters with quoted values.
use foxhttp.Prelude.{
  ◌≡◌, refl, ◌∙◌, ◌≢◌, true, false, List, [], ◌∷◌, ◌++◌, append-nil, append_assoc, arith, ◌==◌,
  ne→==, is_empty, All, Bytes, insert,
}
use foxhttp.Middleware.Auth.{in_key, in_value, in_quotes, is_key_char, kv_loop, parse_kv}

-- A key of letters, digits, '-' and '_', and a value that can stand between quotes.
abbrev pub IsParam : Bytes × Bytes → Type 0
IsParam p =
    (is_empty p.0 ≡ false)
    × All (λ c. is_key_char c ≡ true) p.0
    × All (λ c. (c ≢ 34) × (c ≢ 13) × (c ≢ 10)) p.1

abbrev pub param : Bytes × Bytes → Bytes → Bytes
param p rest = p.0 ++ (b'=' ∷ 34 ∷ (p.1 ++ 34 ∷ rest))

-- `k="v", k="v", ...`
abbrev pub params : List (Bytes × Bytes) → Bytes
params [] = []
params (p ∷ []) = param p []
params (p ∷ q ∷ ps) = param p (b',' ∷ 32 ∷ params (q ∷ ps))

abbrev pub insert_all : List (Bytes × Bytes) → List (Bytes × Bytes) → List (Bytes × Bytes)
insert_all [] out = out
insert_all (p ∷ ps) out = insert_all ps (insert p.0 p.1 out)

kv_loop-key :
    (k key val : Bytes) (out : List (Bytes × Bytes)) (s : Bytes)
    → All (λ c. is_key_char c ≡ true) k
    → kv_loop in_key key val out (k ++ s) ≡ kv_loop in_key (key ++ k) val out s
unfolding kv_loop
kv_loop-key [] key val out s h = rw (append-nil key)
kv_loop-key (c ∷ k) key val out s h =
    let separate : (c == b'=') ≡ false = ground arith in
    rw (
      kv_loop,
      separate,
      h.0,
      kv_loop-key k (key ++ c ∷ []) val out s h.1,
      append_assoc key (c ∷ []) k,
    )

kv_loop-quotes :
    (v key val : Bytes) (out : List (Bytes × Bytes)) (s : Bytes)
    → All (λ c. (c ≢ 34) × (c ≢ 13) × (c ≢ 10)) v
    → kv_loop in_quotes key val out (v ++ s) ≡ kv_loop in_quotes key (val ++ v) out s
unfolding kv_loop
kv_loop-quotes [] key val out s h = rw (append-nil val)
kv_loop-quotes (c ∷ v) key val out s h = rw (
  kv_loop,
  ne→== c 34 h.0.0,
  ne→== c 13 h.0.1,
  ne→== c 10 h.0.2,
  kv_loop-quotes v key (val ++ c ∷ []) out s h.1,
  append_assoc val (c ∷ []) v,
)

kv_loop-param :
    (p : Bytes × Bytes) (out : List (Bytes × Bytes)) (s : Bytes)
    → IsParam p
    → kv_loop in_key [] [] out (param p s) ≡ kv_loop in_value p.0 p.1 out s
unfolding kv_loop
kv_loop-param p out s h =
    kv_loop-key p.0 [] [] out (b'=' ∷ 34 ∷ (p.1 ++ 34 ∷ s)) h.1
    ∙ kv_loop-quotes p.1 p.0 [] out (34 ∷ s) h.2

kv_loop-params :
    (ps : List (Bytes × Bytes)) (out : List (Bytes × Bytes))
    → All IsParam ps
    → kv_loop in_key [] [] out (params ps) ≡ insert_all ps out
unfolding kv_loop
kv_loop-params [] out h = refl
kv_loop-params (p ∷ []) out h = kv_loop-param p out [] h.0 ∙ rw h.0.0
kv_loop-params (p ∷ q ∷ ps) out h =
    kv_loop-param p out (b',' ∷ 32 ∷ params (q ∷ ps)) h.0
    ∙ kv_loop-params (q ∷ ps) (insert p.0 p.1 out) h.1

-- Parameters with proper names and quoted values, written one behind the other with ", " between
-- them, are read as they are, a later one of a name taking the place of an earlier.
pub parse_kv-params :
    (ps : List (Bytes × Bytes)) → All IsParam ps → parse_kv (params ps) ≡ insert_all ps []
unfolding parse_kv
parse_kv-params ps h = kv_loop-params ps [] h
