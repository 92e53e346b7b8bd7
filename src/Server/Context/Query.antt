-- ===== src/Server/Context/Query.antt =====
-- What a query that is written parameter by parameter is read as.
use foxhttp.Prelude.{
  ℕ, suc, ◌<◌, ◌≡◌, refl, sym, ap, ◌∙◌, ◌≢◌, ◌⊎◌, inl, inr, Option, some, List, [], ◌∷◌, ◌++◌, map,
  append-nil, append_assoc, arith, if◌then◌else◌, Bool-cases, Option-cases, length, drop,
  take-length-append, All, All-append, Bytes, same, find, Lacks, same_iff, find-append, find-Lacks,
  find_split, lookup-insert, lookup-nil, getlines, stoi_hex, join, IsLine, getlines-join,
  drop_behind, is_empty-append,
}
use foxhttp.Url.{url_encode}
use foxhttp.Url.Laws.{decode_with-url_encode, url_encode-Lacks, stoi_hex-Reads}
use foxhttp.Server.Context.{
  url_decode, path, query, values_of, push_back, push_values, key_of, value_of, parse_pairs,
  parse_query, new_context,
}

-- The target is its path, and behind the first '?' its query; without a '?' it is all path.
pub path-query :
    (target : Bytes)
    → ((target ≡ path target ++ b'?' ∷ query target) × Lacks b'?' (path target))
      ⊎ ((Lacks b'?' target) × ((path target ≡ target) × (query target ≡ [])))
unfolding path query
path-query target = elim (Option-cases (find b'?' target)) [
  | inl q ↦ inr (find-Lacks b'?' target q, (rw (path, q), rw (query, q)))
  | inr (i, q) ↦ inl (rw (path, query, q) (find_split b'?' target i q))
]

-- A query of parameters with their values, separated by commas.
abbrev pub text : Bytes × List Bytes → Bytes
text (k, vs) = url_encode k ++ b'=' ∷ url_encode (join b',' vs)

-- Bytes, and values that the comma separates.
abbrev pub IsParameter : Bytes × List Bytes → Type 0
IsParameter (k, vs) =
    All (λ c. c < 256) k × ((All (λ c. c < 256) (join b',' vs)) × All (IsLine b',') vs)

text-IsLine : (k : Bytes) (vs : List Bytes) → IsParameter (k, vs) → IsLine b'&' (text (k, vs))
text-IsLine k vs h = (
  is_empty-append (url_encode k) (url_encode (join b',' vs)) b'=',
  All-append (λ c. c ≢ b'&') (url_encode k) (b'=' ∷ url_encode (join b',' vs))
      (url_encode-Lacks b'&' k refl (ground arith) h.0)
      (ground arith, url_encode-Lacks b'&' (join b',' vs) refl (ground arith) h.1.0),
)

texts-IsLine :
    (ps : List (Bytes × List Bytes)) → All IsParameter ps → All (IsLine b'&') (map text ps)
texts-IsLine [] h = tt
texts-IsLine ((k, vs) ∷ ps) h = (text-IsLine k vs h.0, texts-IsLine ps h.1)

-- The values that the parameters of one name give, in their order.
abbrev pub given : Bytes → List (Bytes × List Bytes) → List Bytes
given k [] = []
given k ((j, vs) ∷ ps) = if same j k then vs ++ given k ps else given k ps

values_of-push_back :
    (j k v : Bytes) (params : List (Bytes × List Bytes))
    → values_of k (push_back j v params)
      ≡ (if same j k then values_of k params ++ v ∷ [] else values_of k params)
unfolding push_back
values_of-push_back j k v params = elim (Bool-cases (same j k)) [
  | inl hit ↦
      let key : j ≡ k = (same_iff j k).0 hit in
      rw (values_of, lookup-insert j k (values_of j params ++ v ∷ []) params, hit) (rw key refl)
  | inr miss ↦ rw (values_of, lookup-insert j k (values_of j params ++ v ∷ []) params, miss)
]

values_of-push_values :
    (j k : Bytes) (vs : List Bytes) (params : List (Bytes × List Bytes))
    → All (IsLine b',') vs
    → values_of k (push_values j vs params)
      ≡ (if same j k then values_of k params ++ vs else values_of k params)
values_of-push_values j k [] params h = elim (Bool-cases (same j k)) [
  | inl hit ↦ rw hit (sym (append-nil (values_of k params)))
  | inr miss ↦ rw miss refl
]
values_of-push_values j k ([] ∷ vs) params h = cc
values_of-push_values j k ((c ∷ v) ∷ vs) params h =
    let after = values_of-push_values j k vs (push_back j (c ∷ v) params) h.1 in
    let pushed = values_of-push_back j k (c ∷ v) params in
    elim (Bool-cases (same j k)) [
      | inl hit ↦
          after
          ∙ rw hit (
              ap (λ t. t ++ vs) (pushed ∙ rw hit refl)
              ∙ append_assoc (values_of k params) ((c ∷ v) ∷ []) vs)
      | inr miss ↦ after ∙ rw miss (pushed ∙ rw miss refl)
    ]

found_equals :
    (k value : Bytes)
    → All (λ c. c < 256) k
    → find b'=' (url_encode k ++ b'=' ∷ value) ≡ some (length (url_encode k))
found_equals k value h =
    find-append b'=' (url_encode k) value (url_encode-Lacks b'=' k refl (ground arith) h)

decoded_key :
    (k : Bytes) (vs : List Bytes) → IsParameter (k, vs) → url_decode (key_of (text (k, vs))) ≡ k
unfolding url_decode
decoded_key k vs h =
    let value = url_encode (join b',' vs) in
    rw (key_of, found_equals k value h.0, take-length-append (url_encode k) (b'=' ∷ value))
      (decode_with-url_encode stoi_hex k stoi_hex-Reads h.0)

decoded_values :
    (k : Bytes) (vs : List Bytes)
    → IsParameter (k, vs)
    → getlines b',' (url_decode (value_of (text (k, vs)))) ≡ vs
unfolding url_decode
decoded_values k vs h =
    let value = url_encode (join b',' vs) in
    rw
      (
        value_of,
        found_equals k value h.0,
        drop_behind (url_encode k) value b'=',
        decode_with-url_encode stoi_hex (join b',' vs) stoi_hex-Reads h.1.0,
      )
      (getlines-join b',' vs h.1.1)

parse_pairs-text :
    (k : Bytes) (vs : List Bytes) (pairs : List Bytes) (params : List (Bytes × List Bytes))
    → IsParameter (k, vs)
    → parse_pairs (text (k, vs) ∷ pairs) params ≡ parse_pairs pairs (push_values k vs params)
unfolding parse_pairs
parse_pairs-text k vs pairs params h =
    rw ((text-IsLine k vs h).0, decoded_key k vs h, decoded_values k vs h)

values_of-parse_pairs :
    (k : Bytes) (ps : List (Bytes × List Bytes)) (params : List (Bytes × List Bytes))
    → All IsParameter ps
    → values_of k (parse_pairs (map text ps) params) ≡ values_of k params ++ given k ps
unfolding parse_pairs
values_of-parse_pairs k [] params h = sym (append-nil (values_of k params))
values_of-parse_pairs k ((j, vs) ∷ ps) params h =
    let rest = values_of-parse_pairs k ps (push_values j vs params) h.1 in
    let pushed = values_of-push_values j k vs params h.0.1.1 in
    ap (values_of k) (parse_pairs-text j vs (map text ps) params h.0)
    ∙ rest
    ∙ elim (Bool-cases (same j k)) [
      | inl hit ↦ rw hit (
          ap (λ t. t ++ given k ps) (pushed ∙ rw hit refl)
          ∙ append_assoc (values_of k params) vs (given k ps))
      | inr miss ↦ rw miss (ap (λ t. t ++ given k ps) (pushed ∙ rw miss refl))
    ]

values_of-nil : (k : Bytes) → values_of k [] ≡ []
values_of-nil k = rw (values_of, lookup-nil {V = List Bytes} k)

params_of :
    (target : Bytes) (cookie : Option Bytes) (i : ℕ)
    → find b'?' target ≡ some i
    → (new_context target cookie).query_params
      ≡ parse_pairs (getlines b'&' (drop (suc i) target)) []
unfolding new_context parse_query
params_of target cookie i q = rw (new_context, q)

-- A target whose query is written parameter by parameter, name and values encoded, gives every
-- parameter the values that are given under its name, decoded, all of them and in their order.
-- Values are separated by commas, so they are not empty and have no comma of their own.
pub new_context-query_params :
    (front : Bytes) (ps : List (Bytes × List Bytes)) (cookie : Option Bytes) (k : Bytes)
    → Lacks b'?' front
    → All IsParameter ps
    → values_of k (new_context (front ++ b'?' ∷ join b'&' (map text ps)) cookie).query_params
      ≡ given k ps
new_context-query_params front ps cookie k plain h =
    let found = find-append b'?' front (join b'&' (map text ps)) plain in
    let read = params_of (front ++ b'?' ∷ join b'&' (map text ps)) cookie (length front) found in
    ap (values_of k) (
      read
      ∙ rw
          (
            drop_behind front (join b'&' (map text ps)) b'?',
            getlines-join b'&' (map text ps) (texts-IsLine ps h),
          )
          refl)
    ∙ values_of-parse_pairs k ps [] h
    ∙ ap (λ t. t ++ given k ps) (values_of-nil k)
