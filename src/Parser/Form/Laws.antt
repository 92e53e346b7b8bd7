-- ===== src/Parser/Form/Laws.antt =====
-- What the form parser makes of a body that was written pair by pair.
use foxhttp.Prelude.{
  ◌≤◌, ◌<◌, ◌≡◌, refl, ◌∙◌, ◌≢◌, inl, inr, Bool, true, false, ◌||◌, not, Option, none, some, List,
  [], ◌∷◌, ◌++◌, map, append-nil, append_assoc, arith, ltb, if◌then◌else◌, Bool-cases, Option-cases,
  ok, length, is_empty, take-length-append, All, All-append, Bytes, same, Lacks, same_iff,
  find-append, lookup, lookup-insert, lookup-nil, stream_hex, join, IsLine, getlines-join,
  drop_behind, is_empty-append,
}
use foxhttp.Parser.Form.{
  FormConfig, FormField, empty_field, set_name, add_value, set_single_value, url_decode,
  extract_field_name, extract_field_value, is_array_field, normalize_field_name,
  validate_field_size, store, parse_loop, parse_pairs, parse,
}
use foxhttp.Url.{url_encode}
use foxhttp.Url.Laws.{decode_with-url_encode, url_encode-Lacks, stream_hex-Reads}

-- Decoding what `url_encode` wrote gives back the bytes it was given, whatever they are.
pub url_decode-url_encode : (s : Bytes) → All (λ c. c < 256) s → url_decode (url_encode s) ≡ s
unfolding url_decode
url_decode-url_encode s h = decode_with-url_encode stream_hex s stream_hex-Reads h

-- A body with these names and values.
abbrev pub text : Bytes × Bytes → Bytes
text (n, v) = url_encode n ++ b'=' ∷ url_encode v

abbrev pub render : List (Bytes × Bytes) → Bytes
render ps = join b'&' (map text ps)

text-Lacks : (n v : Bytes) → All (λ c. c < 256) n → All (λ c. c < 256) v → Lacks b'&' (text (n, v))
text-Lacks n v hn hv =
    All-append (λ c. c ≢ b'&') (url_encode n) (b'=' ∷ url_encode v)
      (url_encode-Lacks b'&' n refl (ground arith) hn)
      (ground arith, url_encode-Lacks b'&' v refl (ground arith) hv)

name_of_text :
    (n v : Bytes) → All (λ c. c < 256) n → extract_field_name (text (n, v)) ≡ url_encode n
name_of_text n v h =
    rw
      (
        find-append b'=' (url_encode n) (url_encode v)
            (url_encode-Lacks b'=' n refl (ground arith) h),
        extract_field_name,
      )
      (take-length-append (url_encode n) (b'=' ∷ url_encode v))

value_of_text :
    (n v : Bytes) → All (λ c. c < 256) n → extract_field_value (text (n, v)) ≡ url_encode v
value_of_text n v h =
    rw
      (
        find-append b'=' (url_encode n) (url_encode v)
            (url_encode-Lacks b'=' n refl (ground arith) h),
        extract_field_value,
      )
      (drop_behind (url_encode n) (url_encode v) b'=')

or_false : (b : Bool) → (b || false) ≡ b
or_false true = refl
or_false false = refl

or_true : (b : Bool) → (b || true) ≡ true
or_true true = refl
or_true false = refl

module _ (config : FormConfig) where
  -- Bytes that fit the limit on a field when they are encoded.
  abbrev pub IsPair : Bytes × Bytes → Type 0
  IsPair (n, v) =
      (All (λ c. c < 256) n × (length (url_encode n) ≤ config.max_field_size))
      × (All (λ c. c < 256) v × (length (url_encode v) ≤ config.max_field_size))

  texts-IsLine : (ps : List (Bytes × Bytes)) → All IsPair ps → All (IsLine b'&') (map text ps)
  texts-IsLine [] h = tt
  texts-IsLine ((n, v) ∷ ps) h = (
    (is_empty-append (url_encode n) (url_encode v) b'=', text-Lacks n v h.0.0.0 h.0.1.0),
    texts-IsLine ps h.1,
  )

  abbrev pub store_all : List (Bytes × Bytes) → List (Bytes × FormField) → List (Bytes × FormField)
  store_all [] fields = fields
  store_all ((n, v) ∷ ps) fields = store_all ps (store config n v fields)

  parse_loop-step :
      (pair : Bytes) (pairs : List Bytes) (fields : List (Bytes × FormField))
      → is_empty pair ≡ false
      → validate_field_size config (extract_field_name pair) (extract_field_value pair) ≡ true
      → parse_loop config (pair ∷ pairs) fields
        ≡ parse_loop config pairs (
            store config
              (url_decode (extract_field_name pair))
              (url_decode (extract_field_value pair))
              fields)
  unfolding parse_loop
  parse_loop-step pair pairs fields some_text fits = rw (some_text, fits, parse_loop)

  parse_loop-text :
      (n v : Bytes) (pairs : List Bytes) (fields : List (Bytes × FormField))
      → IsPair (n, v)
      → parse_loop config (text (n, v) ∷ pairs) fields
        ≡ parse_loop config pairs (store config n v fields)
  parse_loop-text n v pairs fields h =
      let name_is = name_of_text n v h.0.0 in
      let value_is = value_of_text n v h.0.0 in
      parse_loop-step (text (n, v)) pairs fields
        (is_empty-append (url_encode n) (url_encode v) b'=')
        (rw (name_is, value_is) (fits (url_encode n) (url_encode v) h.0.1 h.1.1))
      ∙ rw (name_is, value_is, url_decode-url_encode n h.0.0, url_decode-url_encode v h.1.0)
    where
      fits :
          (a b : Bytes)
          → length a ≤ config.max_field_size
          → length b ≤ config.max_field_size
          → validate_field_size config a b ≡ true
      fits a b ha hb = ground arith

  parse_loop-texts :
      (ps : List (Bytes × Bytes)) (fields : List (Bytes × FormField))
      → All IsPair ps
      → parse_loop config (map text ps) fields ≡ ok (store_all ps fields)
  unfolding parse_loop
  parse_loop-texts [] fields h = refl
  parse_loop-texts ((n, v) ∷ ps) fields h =
      parse_loop-text n v (map text ps) fields h.0
      ∙ parse_loop-texts ps (store config n v fields) h.1

  -- The values given for a name, in their order, and whether the first is given as for an array.
  abbrev pub values_for : Bytes → List (Bytes × Bytes) → List Bytes
  values_for k [] = []
  values_for k ((n, v) ∷ ps) =
      if same (normalize_field_name config n) k then v ∷ values_for k ps else values_for k ps

  abbrev pub begins_array : Bytes → List (Bytes × Bytes) → Bool
  begins_array k [] = false
  begins_array k ((n, v) ∷ ps) =
      if same (normalize_field_name config n) k then is_array_field config n else begins_array k ps

  abbrev pub gathered : Bytes → List Bytes → Bool → Option FormField
  gathered k [] array = none
  gathered k (v ∷ vs) array =
      some (record { name = k; values = v ∷ vs; is_array = array || not (is_empty vs) })

  -- The field of a name in a form with these pairs: all values given for the name, in their order.
  abbrev pub expected : Bytes → List (Bytes × Bytes) → Option FormField
  expected k ps = gathered k (values_for k ps) (begins_array k ps)

  lookup-store :
      (n v k : Bytes) (fields : List (Bytes × FormField))
      → lookup k (store config n v fields) ≡ (
          if same (normalize_field_name config n) k
          then some (elim (lookup (normalize_field_name config n) fields) [
            | some f ↦ add_value v f
            | none ↦
                if is_array_field config n
                then add_value v (set_name (normalize_field_name config n) empty_field)
                else set_single_value v (set_name (normalize_field_name config n) empty_field)
          ])
          else lookup k fields)
  unfolding store
  lookup-store n v k fields = elim (Option-cases (lookup (normalize_field_name config n) fields)) [
    | inl q ↦ rw (q, store, lookup-insert) refl
    | inr (f, q) ↦
        rw (q, store) (lookup-insert (normalize_field_name config n) k (add_value v f) fields)
  ]

  -- The field of a name when one more value is stored for it.
  abbrev with_value : Bytes → Bool → Bytes → Option FormField → FormField
  with_value k array v (some f) = add_value v f
  with_value k array v none =
      if array
      then add_value v (set_name k empty_field)
      else set_single_value v (set_name k empty_field)

  lookup-store-same :
      (n v k : Bytes) (fields : List (Bytes × FormField))
      → same (normalize_field_name config n) k ≡ true
      → lookup k (store config n v fields)
        ≡ some (with_value k (is_array_field config n) v (lookup k fields))
  lookup-store-same n v k fields e =
      let key : normalize_field_name config n ≡ k =
        (same_iff (normalize_field_name config n) k).0 e in
      elim (Option-cases (lookup k fields)) [
        | inl q ↦ lookup-store n v k fields ∙ rw (e, key, q, key) refl
        | inr (f, q) ↦ lookup-store n v k fields ∙ rw (e, key, q) refl
      ]

  lookup-store-other :
      (n v k : Bytes) (fields : List (Bytes × FormField))
      → same (normalize_field_name config n) k ≡ false
      → lookup k (store config n v fields) ≡ lookup k fields
  lookup-store-other n v k fields e = lookup-store n v k fields ∙ rw e refl

  lookup-store_all-some :
      (ps : List (Bytes × Bytes)) (k : Bytes) (fields : List (Bytes × FormField)) (f : FormField)
      → lookup k fields ≡ some f
      → lookup k (store_all ps fields)
        ≡ some (record {
          name = f.name;
          values = f.values ++ values_for k ps;
          is_array = f.is_array || not (is_empty (values_for k ps));
        })
  lookup-store_all-some [] k fields f e = e ∙ rw (append-nil f.values) (rw (or_false f.is_array))
  lookup-store_all-some ((n, v) ∷ ps) k fields f e =
      elim (Bool-cases (same (normalize_field_name config n) k)) [
        | inl hit ↦ rw hit (
            lookup-store_all-some ps k (store config n v fields) (add_value v f)
              (lookup-store-same n v k fields hit ∙ rw e refl)
            ∙ rw (append_assoc f.values (v ∷ []) (values_for k ps)) (rw (or_true f.is_array)))
        | inr miss ↦ rw miss (
            lookup-store_all-some ps k (store config n v fields) f
              (lookup-store-other n v k fields miss ∙ e))
      ]

  first_value :
      (k v : Bytes) (vs : List Bytes) (array : Bool)
      → some (record {
        name = (with_value k array v none).name;
        values = (with_value k array v none).values ++ vs;
        is_array = (with_value k array v none).is_array || not (is_empty vs);
      })
        ≡ gathered k (v ∷ vs) array
  first_value k v vs true = refl
  first_value k v vs false = refl

  lookup-store_all :
      (ps : List (Bytes × Bytes)) (k : Bytes) (fields : List (Bytes × FormField))
      → lookup k fields ≡ none
      → lookup k (store_all ps fields) ≡ expected k ps
  lookup-store_all [] k fields e = e
  lookup-store_all ((n, v) ∷ ps) k fields e =
      elim (Bool-cases (same (normalize_field_name config n) k)) [
        | inl hit ↦
            rw (expected, hit)
              (lookup-store_all-some ps k (store config n v fields)
                  (with_value k (is_array_field config n) v none)
                  (lookup-store-same n v k fields hit ∙ rw e refl)
                ∙ first_value k v (values_for k ps) (is_array_field config n))
        | inr miss ↦
            rw (expected, miss)
              (lookup-store_all ps k (store config n v fields)
                (lookup-store-other n v k fields miss ∙ e))
      ]

  -- A body that is written from pairs of names and values, each encoded and within the limits,
  -- parses, and the field of every name holds the values given for that name, decoded, all of
  -- them and in their order; a name that is not given has no field. Names count as the same when
  -- they differ in a final "[]" only, where arrays are supported.
  pub parse-render :
      (ps : List (Bytes × Bytes))
      → All IsPair ps
      → length (render ps) ≤ config.max_total_size
      → (fields : List (Bytes × FormField)) × ((parse config (render ps) ≡ ok fields)
          × ((k : Bytes) → lookup k fields ≡ expected k ps))
  unfolding parse parse_pairs
  parse-render ps h small =
      let fits : ltb config.max_total_size (length (render ps)) ≡ false = ground arith in
      (
        store_all ps [],
        (
          rw (fits, getlines-join b'&' (map text ps) (texts-IsLine ps h))
              (parse_loop-texts ps [] h),
          λ k. lookup-store_all ps k [] (lookup-nil k),
        ),
      )
