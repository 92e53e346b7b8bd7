-- ===== src/Parser/JsonParser/Depth.antt =====
-- The depth of a value.
use foxhttp.Prelude.{
  ℕ, suc, ◌+◌, ◌≤◌, ◌≡◌, refl, ap, ◌∙◌, subst, ◌≢◌, ◌↔◌, inl, inr, false, ◌++◌, arith, ltb,
  if◌then◌else◌, Bool-cases, Result, ok, err, Result-cases, length, Bytes, codes,
}
use native.Mathlib.Nat.{zero-add}
use foxhttp.Parser.JsonParser.{
  Json, Items, scalar, array, object, end, item, max, JsonConfig, preprocess_json, depth_error,
  parse_with_validation, parse, calculate_depth, deepest,
}

-- The depth by itself: that of a scalar is 0, and so is that of an empty array or object; an element
-- adds 1 to its own.
unfoldable mutual
  pub depth : Json → ℕ
  depth scalar = 0
  depth (array items) = items_depth items
  depth (object items) = items_depth items

  pub items_depth : Items → ℕ
  items_depth end = 0
  items_depth (item key value items) = max (suc (depth value)) (items_depth items)

max-add : (m d x y : ℕ) → max (max m (d + 1 + x)) (d + y) ≡ max m (d + max (suc x) y)
max-add m d x y = ground arith

max-same : (d x : ℕ) → max d (d + x) ≡ d + x
max-same d x = ground arith

max-above : (d m x : ℕ) → d ≤ m → d ≤ max m x
max-above d m x h = ground arith

mutual
  unfolding calculate_depth depth

  -- The depth that the parser compares with its limit is the nesting of the value.
  pub calculate_depth-depth :
      (json : Json) (current_depth : ℕ)
      → calculate_depth json current_depth ≡ current_depth + depth json
  calculate_depth-depth scalar d = omega arith
  calculate_depth-depth (array items) d =
      deepest-depth items d d (omega arith) ∙ max-same d (items_depth items)
  calculate_depth-depth (object items) d =
      deepest-depth items d d (omega arith) ∙ max-same d (items_depth items)

  deepest-depth :
      (items : Items) (d m : ℕ) → d ≤ m → deepest items d m ≡ max m (d + items_depth items)
  deepest-depth end d m h = ground arith
  deepest-depth (item key value items) d m h =
      let first = max m (calculate_depth value (d + 1)) in
      let inner : first ≡ max m (d + 1 + depth value) =
        ap (max m) (calculate_depth-depth value (d + 1)) in
      deepest-depth items d first (max-above d m _ h)
      ∙ (ap (λ x. max x (d + items_depth items)) inner
          ∙ max-add m d (depth value) (items_depth items))

module _ (json_parse : Bytes → Result Bytes Json) (config : JsonConfig) where
  not_err : {A : Type 0} {what : Bytes} {a : A} (r : Result Bytes A) → r ≡ err what → r ≢ ok a
  not_err r e q = cc

  depth_tested :
      (body : Bytes) (json : Json)
      → json_parse (preprocess_json config body) ≡ ok json
      → parse_with_validation json_parse config body ≡ (
          if ltb config.max_depth (depth json)
          then err (depth_error (depth json) config.max_depth)
          else ok json)
  unfolding parse_with_validation
  depth_tested body json e =
      rw (parse_with_validation, e, calculate_depth-depth json 0, zero-add (depth json)) refl

  refused :
      (body what : Bytes)
      → json_parse (preprocess_json config body) ≡ err what
      → parse_with_validation json_parse config body ≡ err (codes "JSON parse error: " ++ what)
  unfolding parse_with_validation
  refused body what e = rw (parse_with_validation, e) refl

  validated_iff :
      (body : Bytes) (json : Json)
      → (parse_with_validation json_parse config body ≡ ok json)
        ↔ ((json_parse (preprocess_json config body) ≡ ok json) × (depth json ≤ config.max_depth))
  validated_iff body json = (accepted, λ h. depth_tested body json h.0 ∙ rw (not_deeper h.1) refl)
    where
      not_deeper : {a b : ℕ} → a ≤ b → ltb b a ≡ false
      not_deeper h = ground (arith, h)

      one_value : (a b : Json) (r : Result Bytes Json) → r ≡ ok a → r ≡ ok b → a ≡ b
      one_value a b r e q = cc

      accepted :
          parse_with_validation json_parse config body ≡ ok json
          → (json_parse (preprocess_json config body) ≡ ok json) × (depth json ≤ config.max_depth)
      accepted e = elim (Result-cases (json_parse (preprocess_json config body))) [
        | inr (what, q) ↦ absurd (not_err _ (refused body what q) e)
        | inl (j, q) ↦ elim (Bool-cases (ltb config.max_depth (depth j))) [
          | inl deep ↦ absurd (
              not_err {what = depth_error (depth j) config.max_depth} _
                (depth_tested body j q ∙ rw deep refl) e)
          | inr fits ↦
              let kept : parse_with_validation json_parse config body ≡ ok j =
                depth_tested body j q ∙ rw fits refl in
              let agree = one_value j json _ kept e in
              (q ∙ ap ok agree, subst (λ v. depth v ≤ config.max_depth) agree (ground arith))
        ]
      ]

  -- A body is accepted as a value exactly if it is within the size limit, the JSON library reads that
  -- value from the preprocessed body, and the value is nested no deeper than the limit.
  pub parse-ok_iff :
      (body : Bytes) (json : Json)
      → (parse json_parse config body ≡ ok json) ↔ (
          (length body ≤ config.max_size)
          × ((json_parse (preprocess_json config body) ≡ ok json)
              × (depth json ≤ config.max_depth)))
  unfolding parse
  parse-ok_iff body json = elim (Bool-cases (ltb config.max_size (length body))) [
    | inl large ↦ rw large (λ e. absurd (not_err _ refl e), λ h. absurd (ground arith))
    | inr small ↦
        rw small
          (λ e. (ground arith, (validated_iff body json).0 e), λ h. (validated_iff body json).1 h.1)
  ]
