-- ===== src/Parser/Form/Errors.antt =====
-- When the form parser throws, and when its validators find nothing.
use foxhttp.Prelude.{
  ℕ, ◌≤◌, ◌≡◌, refl, sym, ◌∙◌, ◌≢◌, ◌↔◌, ◌⊎◌, inl, inr, Bool, true, false, List, [], ◌∷◌, arith,
  ltb, leb, Bool-cases, Result, ok, err, length, All, Bytes, codes, getlines,
}
use foxhttp.Parser.Form.{
  FormConfig, FormField, extract_field_name, extract_field_value, validate_field_size, url_decode,
  store, parse_loop, parse_pairs, parse, is_valid, values_fit, validate_field, field_errors,
  validate_all_fields, validate_total_size, validate_field_count, total_size, validation_error,
}

err_not_ok :
    {A : Type 0} (r : Result Bytes A) (message : Bytes) (a : A) → r ≡ err message → r ≢ ok a
err_not_ok r message a e f = cc

nonempty : (x : Bytes) (xs : List Bytes) → x ∷ xs ≢ []
nonempty x xs e = cc

module _ (config : FormConfig) where
  -- A piece of the body between two '&' that does not make the parser throw.
  abbrev pub Fits : Bytes → Type 0
  Fits pair =
      (pair ≡ [])
      ⊎ ((length (extract_field_name pair) ≤ config.max_field_size)
          × (length (extract_field_value pair) ≤ config.max_field_size))

  parse_loop-Fits :
      (pairs : List Bytes) (fields : List (Bytes × FormField))
      → All Fits pairs
      → (after : List (Bytes × FormField)) × (parse_loop config pairs fields ≡ ok after)
  unfolding parse_loop
  parse_loop-Fits [] fields h = (fields, refl)
  parse_loop-Fits ([] ∷ pairs) fields h = parse_loop-Fits pairs fields h.1
  parse_loop-Fits ((x ∷ pair) ∷ pairs) fields (inl empty, h) = cc
  parse_loop-Fits ((x ∷ pair) ∷ pairs) fields (inr (n, v), h) =
      let enough : validate_field_size config (extract_field_name (x ∷ pair))
            (extract_field_value (x ∷ pair))
          ≡ true =
        ground arith in
      let (after, e) =
        parse_loop-Fits pairs
          (store config (url_decode (extract_field_name (x ∷ pair)))
            (url_decode (extract_field_value (x ∷ pair))) fields)
          h in
      (after, rw (enough, parse_loop) e)

  loop-enough :
      (x : ℕ) (pair : Bytes) (pairs : List Bytes) (fields : List (Bytes × FormField))
      → validate_field_size config (extract_field_name (x ∷ pair)) (extract_field_value (x ∷ pair))
        ≡ true
      → parse_loop config ((x ∷ pair) ∷ pairs) fields
        ≡ parse_loop config pairs (
            store config
              (url_decode (extract_field_name (x ∷ pair)))
              (url_decode (extract_field_value (x ∷ pair)))
              fields)
  unfolding parse_loop
  loop-enough x pair pairs fields enough = rw (enough, parse_loop)

  loop-short :
      (x : ℕ) (pair : Bytes) (pairs : List Bytes) (fields : List (Bytes × FormField))
      → validate_field_size config (extract_field_name (x ∷ pair)) (extract_field_value (x ∷ pair))
        ≡ false
      → parse_loop config ((x ∷ pair) ∷ pairs) fields
        ≡ err (codes "Field size exceeds maximum allowed size")
  unfolding parse_loop
  loop-short x pair pairs fields short = rw (short, parse_loop)

  parse_loop_ok :
      (pairs : List Bytes) (fields after : List (Bytes × FormField))
      → parse_loop config pairs fields ≡ ok after
      → All Fits pairs
  unfolding parse_loop
  parse_loop_ok [] fields after e = tt
  parse_loop_ok ([] ∷ pairs) fields after e = (inl refl, parse_loop_ok pairs fields after e)
  parse_loop_ok ((x ∷ pair) ∷ pairs) fields after e =
      elim (Bool-cases (
        validate_field_size config (extract_field_name (x ∷ pair))
          (extract_field_value (x ∷ pair)))) [
            | inl enough ↦ (
              inr (ground arith),
              parse_loop_ok pairs _ after (sym (loop-enough x pair pairs fields enough) ∙ e),
            )
            | inr short ↦ absurd (err_not_ok _ _ after (loop-short x pair pairs fields short) e)
          ]

  -- A field with a name and no value above the limit.
  abbrev pub IsFine : FormField → Type 0
  IsFine f = (f.name ≢ []) × All (λ v. length v ≤ config.max_field_size) f.values

  values_fit_iff :
      (vs : List Bytes)
      → (values_fit config vs ≡ true) ↔ All (λ v. length v ≤ config.max_field_size) vs
  values_fit_iff [] = (λ e. tt, λ h. refl)
  values_fit_iff (v ∷ vs) = ground (arith, values_fit_iff vs)

  validate_field_iff : (f : FormField) → (validate_field config f ≡ true) ↔ IsFine f
  unfolding validate_field is_valid validation_error
  validate_field_iff f = named f.name
    where
      nonempty_name : (x : ℕ) (name : Bytes) → x ∷ name ≢ []
      nonempty_name x name e = cc

      named :
          (name : Bytes)
          → (validate_field config (record f { name = name }) ≡ true)
            ↔ IsFine (record f { name = name })
      named [] = (λ e. cc, λ h. absurd (h.0 refl))
      named (x ∷ name) = (
        λ e. (nonempty_name x name, (values_fit_iff f.values).0 e),
        λ h. (values_fit_iff f.values).1 h.1,
      )

  validators :
      (fields : List (Bytes × FormField))
      → (field_errors config fields ≡ []) ↔ All (λ f. IsFine f.1) fields
  unfolding field_errors
  validators [] = (λ e. tt, λ h. refl)
  validators ((name, f) ∷ fields) =
      let fine = validate_field_iff f in
      let others = validators fields in
      elim (Bool-cases (validate_field config f)) [
        | inl good ↦ rw good (λ e. (fine.0 good, others.0 e), λ h. others.1 h.1)
        | inr bad ↦
            rw bad (λ e. absurd (nonempty _ _ e), λ h. absurd (true_not_false _ (fine.1 h.0) bad))
      ]
    where
      true_not_false : (b : Bool) → b ≡ true → b ≢ false
      true_not_false b e f = cc

  -- A body parses exactly if it is no longer than the limit and every piece between two '&' that
  -- is not empty has a name and a value within the limit, both measured as they are encoded.
  pub parse_ok_iff :
      (body : Bytes)
      → ((fields : List (Bytes × FormField)) × (parse config body ≡ ok fields))
        ↔ ((length body ≤ config.max_total_size) × All Fits (getlines b'&' body))
  unfolding parse parse_pairs
  parse_ok_iff body = elim (Bool-cases (ltb config.max_total_size (length body))) [
    | inl large ↦ rw large (λ h. absurd (err_not_ok _ _ h.0 refl h.1), λ h. absurd (ground arith))
    | inr small ↦ rw small (
      λ h. (ground arith, parse_loop_ok (getlines b'&' body) [] h.0 h.1),
      λ h. parse_loop-Fits (getlines b'&' body) [] h.1,
    )
  ]

  -- The validators find no error exactly if there are not too many fields, names and values
  -- together are within the limit, and every field has a name and no value above the limit.
  pub validate_all_fields_iff :
      (fields : List (Bytes × FormField))
      → (validate_all_fields config fields ≡ []) ↔ (
          (length fields ≤ config.max_fields)
          × ((total_size config fields ≤ config.max_total_size) × All (λ f. IsFine f.1) fields))
  unfolding validate_all_fields validate_total_size validate_field_count
  validate_all_fields_iff fields = elim (Bool-cases (leb (length fields) config.max_fields)) [
    | inr many ↦ rw many (λ e. absurd (nonempty _ _ e), λ h. absurd (ground arith))
    | inl few ↦ elim (Bool-cases (leb (total_size config fields) config.max_total_size)) [
      | inr large ↦ rw (few, large) (λ e. absurd (nonempty _ _ e), λ h. absurd (ground arith))
      | inl small ↦
          rw (few, small)
            (
              λ e. (ground arith, (ground arith, (validators fields).0 e)),
              λ h. (validators fields).1 h.1.1,
            )
    ]
  ]
