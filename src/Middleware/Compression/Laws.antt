-- ===== src/Middleware/Compression/Laws.antt =====
-- What a compressed response says of itself.
use foxhttp.Prelude.{
  ℕ, ◌≡◌, refl, sym, ap, ◌∙◌, subst, ◌≢◌, ◌⊎◌, inl, inr, true, Option, none, some, List, [], ◌∷◌,
  ltb, Bool-cases, Option-cases, length, Bytes, codes, lookup, insert, lookup-insert, find_text,
  to_string,
}
use foxhttp.Middleware.Code.{Response, set_header}
use foxhttp.Middleware.Compression.{
  CompressionType, gzip, deflate, br, plain, Codecs, Compression, get_encoding_name, found,
  priority_of, best_from, compress_deflate, compressed, encode_as, compress_response,
}

-- Decoders that undo the compressors where these succeed.
module _ (codecs : Codecs) (decode : CompressionType → Bytes → Option Bytes) where
  pub record Undoes : Type 0 where
    pub gzip_undone : (b : Bytes) → decode gzip (codecs.gzip_compressor b) ≡ some b
    pub deflate_undone :
        (b c : Bytes) → codecs.zlib_compressor b ≡ some c → decode deflate c ≡ some b
    pub br_undone :
        (f : Bytes → Option Bytes) (b c : Bytes)
        → codecs.brotli_encoder ≡ some f
        → f b ≡ some c
        → decode br c ≡ some b

  -- The compressor of a type that reports a failure for a body.
  abbrev Fails : CompressionType → Bytes → Type 0
  Fails gzip b = ⊥
  Fails deflate b = codecs.zlib_compressor b ≡ none
  Fails br b = (f : Bytes → Option Bytes) × (codecs.brotli_encoder ≡ some f) × (f b ≡ none)
  Fails plain b = ⊥

  -- How a body that is marked as `t` reads: as `t`; untouched, if deflate failed; or as gzip, if
  -- Brotli failed or is not in the build.
  abbrev pub Reads : CompressionType → Bytes → Bytes → Type 0
  Reads t before after =
      (decode t after ≡ some before)
      ⊎ (((t ≡ deflate) × Fails deflate before × (after ≡ before))
          ⊎ ((t ≡ br)
              × ((codecs.brotli_encoder ≡ none) ⊎ Fails br before)
              × (decode gzip after ≡ some before)))

abbrev pub Among : CompressionType → List CompressionType → Type 0
Among t [] = ⊥
Among t (u ∷ us) = (t ≡ u) ⊎ Among t us

module _ (codecs : Codecs) (accept_encoding : Bytes) where
  -- A type that is supported and named by the client, or the one that the search began with.
  abbrev Choice : CompressionType → List CompressionType → CompressionType → Type 0
  Choice start ts t =
      (t ≡ start) ⊎ (Among t ts × (found (find_text (get_encoding_name t) accept_encoding) ≡ true))

  later_choice :
      (start u : CompressionType) (ts : List CompressionType) (t : CompressionType)
      → Choice start ts t
      → Choice start (u ∷ ts) t
  later_choice start u ts t (inl e) = inl e
  later_choice start u ts t (inr (a, f)) = inr (inr a, f)

  this_choice :
      (start u : CompressionType) (ts : List CompressionType) (t : CompressionType) (pos : ℕ)
      → find_text (get_encoding_name u) accept_encoding ≡ some pos
      → Choice u ts t
      → Choice start (u ∷ ts) t
  this_choice start u ts t pos e (inl q) = inr (inl q, rw (q, e))
  this_choice start u ts t pos e (inr (a, f)) = inr (inr a, f)

  best_from-Choice :
      (ts : List CompressionType) (start : CompressionType) (priority : ℕ)
      → Choice start ts (best_from codecs accept_encoding ts start priority)
  unfolding best_from
  best_from-Choice [] start priority = inl refl
  best_from-Choice (u ∷ ts) start priority =
      let here = best_from codecs accept_encoding (u ∷ ts) start priority in
      let kept = best_from codecs accept_encoding ts start priority in
      elim (Option-cases (find_text (get_encoding_name u) accept_encoding)) [
        | inl e ↦
            let q : here ≡ kept = rw (best_from, e) in
            subst (Choice start (u ∷ ts)) (sym q)
              (later_choice start u ts kept (best_from-Choice ts start priority))
        | inr (pos, e) ↦
            let p = priority_of codecs accept_encoding pos in
            elim (Bool-cases (ltb priority p)) [
              | inl b ↦
                  let better = best_from codecs accept_encoding ts u p in
                  let q : here ≡ better = rw (best_from, e, b) in
                  subst (Choice start (u ∷ ts)) (sym q)
                    (this_choice start u ts better pos e (best_from-Choice ts u p))
              | inr b ↦
                  let q : here ≡ kept = rw (best_from, e, b) in
                  subst (Choice start (u ∷ ts)) (sym q)
                    (later_choice start u ts kept (best_from-Choice ts start priority))
            ]
      ]

abbrev ce : Bytes
ce = codes "Content-Encoding"

abbrev cl : Bytes
cl = codes "Content-Length"

both_headers :
    (name len : Bytes) (headers : List (Bytes × Bytes))
    → (lookup ce (insert cl len (insert ce name headers)) ≡ some name)
      × (lookup cl (insert cl len (insert ce name headers)) ≡ some len)
both_headers name len headers = (
  lookup-insert cl ce len (insert ce name headers) ∙ lookup-insert ce ce name headers,
  lookup-insert cl cl len (insert ce name headers),
)

module _ (codecs : Codecs) (decode : CompressionType → Bytes → Option Bytes) where
  -- A response that was encoded as `t`.
  pub record IsEncoded (t : CompressionType) (before after : Response) : Type 0 where
    pub named : lookup (codes "Content-Encoding") after.headers ≡ some (get_encoding_name t)
    pub measured :
        lookup (codes "Content-Length") after.headers ≡ some (to_string (length after.body))
    same_status : after.status ≡ before.status
    pub read : Reads codecs decode t before.body after.body

  deflate_read :
      (b : Bytes)
      → Undoes codecs decode
      → Reads codecs decode deflate b (compressed codecs deflate b)
  deflate_read b u = elim (Option-cases (codecs.zlib_compressor b)) [
    | inl e ↦ inr (inl (refl, e, rw (compress_deflate, e)))
    | inr (c, e) ↦
        let q : compressed codecs deflate b ≡ c = rw (compress_deflate, e) in
        inl (ap (decode deflate) q ∙ u.deflate_undone b c e)
  ]

  br_read : (b : Bytes) → Undoes codecs decode → Reads codecs decode br b (compressed codecs br b)
  br_read b u = elim (Option-cases codecs.brotli_encoder) [
    | inl e ↦
        let q : compressed codecs br b ≡ codecs.gzip_compressor b = rw e in
        inr (inr (refl, inl e, ap (decode gzip) q ∙ u.gzip_undone b))
    | inr (f, e) ↦ elim (Option-cases (f b)) [
      | inl g ↦
          let q : compressed codecs br b ≡ codecs.gzip_compressor b = rw (e, g) in
          inr (inr (refl, inr (f, e, g), ap (decode gzip) q ∙ u.gzip_undone b))
      | inr (c, g) ↦
          let q : compressed codecs br b ≡ c = rw (e, g) in
          inl (ap (decode br) q ∙ u.br_undone f b c e g)
    ]
  ]

  marked :
      (t : CompressionType) (body : Bytes) (res : Response)
      → Reads codecs decode t res.body body
      → IsEncoded t res (
          set_header cl
            (to_string (length body))
            (record (set_header ce (get_encoding_name t) res) { body = body }))
  marked t body res r =
      let (named, measured) =
        both_headers (get_encoding_name t) (to_string (length body)) res.headers in
      record { named = named; measured = measured; same_status = refl; read = r }

  encode_as-IsEncoded :
      (t : CompressionType) (res : Response)
      → Undoes codecs decode
      → t ≢ plain
      → IsEncoded t res (encode_as codecs t res)
  encode_as-IsEncoded gzip res u h = marked gzip _ res (inl (u.gzip_undone res.body))
  encode_as-IsEncoded deflate res u h = marked deflate _ res (deflate_read res.body u)
  encode_as-IsEncoded br res u h = marked br _ res (br_read res.body u)
  encode_as-IsEncoded plain res u h = absurd (h refl)

  by_type :
      (c : Compression) (accept_encoding : Bytes) (res : Response)
      → Undoes codecs decode
      → (t : CompressionType) → Choice codecs accept_encoding plain c.supported_types t
      → (encode_as codecs t res ≡ res)
        ⊎ ((u : CompressionType) × Among u c.supported_types
            × (found (find_text (get_encoding_name u) accept_encoding) ≡ true)
            × IsEncoded u res (encode_as codecs t res))
  by_type c accept_encoding res u plain choice = inl refl
  by_type c accept_encoding res u t (inl e) = inl (ap (λ v. encode_as codecs v res) e)
  by_type c accept_encoding res u t (inr (a, f)) =
      inr (t, a, f, encode_as-IsEncoded t res u (λ e. cc))

  -- A response is left as it is, or encoded as a type that is supported and that the header
  -- Accept-Encoding names: Content-Encoding names that type, Content-Length is the length of the new
  -- body, the status stays, and the new body decodes as that type to the old one, except that a body
  -- marked "deflate" is the old one if deflate failed and a body marked "br" decodes as gzip if Brotli
  -- failed or is not in the build. The decoders are assumed to undo the compressors.
  pub compress_response-IsEncoded :
      (c : Compression) (accept_encoding : Bytes) (res : Response)
      → Undoes codecs decode
      → (compress_response codecs c accept_encoding res ≡ res)
        ⊎ ((t : CompressionType) × Among t c.supported_types
            × (found (find_text (get_encoding_name t) accept_encoding) ≡ true)
            × IsEncoded t res (compress_response codecs c accept_encoding res))
  unfolding compress_response
  compress_response-IsEncoded c accept_encoding res u =
      by_type c accept_encoding res u (best_from codecs accept_encoding c.supported_types plain 0)
        (best_from-Choice codecs accept_encoding c.supported_types plain 0)
