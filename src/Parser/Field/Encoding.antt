-- ===== src/Parser/Field/Encoding.antt =====
-- Decoding of quoted-printable and the boundary of a content type.
use foxhttp.Prelude.{
  ℕ, suc, ◌+◌, ◌-◌, ◌*◌, ◌/◌, ◌%◌, ◌<◌, ◌≡◌, refl, ap, ◌∙◌, ◌≢◌, ◌⊎◌, inl, inr, Bool, true, false,
  ◌&&◌, some, List, [], ◌∷◌, ◌++◌, map, arith, leb, if◌then◌else◌, le→leb, ne→==, Bool-cases,
  length, drop, length-append, take-length-append, drop-length-append, drop-add, All, All-append,
  Bytes, codes, Lacks, hex_digit, hex_value-hex_digit, find_text-front,
}
use foxhttp.Url.Laws.{stoi_hex-Reads}
use foxhttp.Parser.Field.{
  is_stop, before_stop, ends_in_quote, begins_with_quote, remove_quotes, extract_boundary, hex_pair,
  is_xdigit, quoted_printable_decode,
}

-- A byte as RFC 2045 writes it, by itself or as "=" and two digits.
pub record Octet : Type 0 where
  pub byte : ℕ
  pub is_escaped : Bool

abbrev spell_octets : List Octet → Bytes
spell_octets [] = []
spell_octets (o ∷ os) =
    let rest = spell_octets os in
    if o.is_escaped
    then b'=' ∷ hex_digit (o.byte / 16) ∷ hex_digit (o.byte % 16) ∷ rest
    else o.byte ∷ rest

abbrev IsOctet : Octet → Type 0
IsOctet o = (o.byte < 256) × ((o.is_escaped ≡ true) ⊎ (o.byte ≢ b'='))

qp-nil : quoted_printable_decode [] ≡ []
unfolding quoted_printable_decode
qp-nil = refl

qp-plain :
    (c : ℕ) (s : Bytes) → c ≢ b'=' → quoted_printable_decode (c ∷ s) ≡ c ∷ quoted_printable_decode s
unfolding quoted_printable_decode
qp-plain c [] h = rw (ne→== c b'=' h) refl
qp-plain c (d ∷ []) h = refl
qp-plain c (a ∷ b ∷ s) h = rw (ne→== c b'=' h) refl

hex_pair-hex_digit :
    (x y : ℕ) → x < 16 → y < 16 → hex_pair (hex_digit x) (hex_digit y) ≡ some (16 * x + y)
hex_pair-hex_digit x y hx hy =
    rw (hex_pair, is_xdigit, hex_value-hex_digit x hx, hex_value-hex_digit y hy)
      (stoi_hex-Reads x y hx hy)

qp-escaped :
    (x y : ℕ) (s : Bytes)
    → x < 16
    → y < 16
    → quoted_printable_decode (b'=' ∷ hex_digit x ∷ hex_digit y ∷ s)
      ≡ (16 * x + y) ∷ quoted_printable_decode s
unfolding quoted_printable_decode
qp-escaped x y s hx hy = rw (quoted_printable_decode, hex_pair-hex_digit x y hx hy) refl

unescaped : (o : Octet) → IsOctet o → o.is_escaped ≡ false → o.byte ≢ b'='
unescaped o (low, inl e) f = absurd (cc)
unescaped o (low, inr h) f = h

-- What is written in quoted-printable without soft line breaks is read back: each byte by itself, if
-- it is not "=", or as "=" and two hexadecimal digits.
pub quoted_printable_decode-spell_octets :
    (os : List Octet)
    → All IsOctet os
    → quoted_printable_decode (spell_octets os) ≡ map (λ o. o.byte) os
quoted_printable_decode-spell_octets [] h = qp-nil
quoted_printable_decode-spell_octets (o ∷ os) h =
    let again = quoted_printable_decode-spell_octets os h.1 in
    let whole : 16 * (o.byte / 16) + o.byte % 16 ≡ o.byte = omega arith in
    elim (Bool-cases o.is_escaped) [
      | inl e ↦
          rw
            (
              e,
              qp-escaped (o.byte / 16) (o.byte % 16) (spell_octets os) (omega (arith, h.0.0))
                  (omega arith),
              again,
            )
            (ap (λ v. v ∷ map (λ o. o.byte) os) whole)
      | inr e ↦ rw (e, qp-plain o.byte (spell_octets os) (unescaped o h.0 e), again) refl
    ]

abbrev spell_boundary : Bool → Bytes → Bytes
spell_boundary quoted b = if quoted then 34 ∷ b ++ 34 ∷ [] else b

abbrev pub stops : Bytes → Bool
stops [] = true
stops (c ∷ s) = is_stop c

before_stop-append :
    (b rest : Bytes)
    → All (λ c. is_stop c ≡ false) b
    → stops rest ≡ true
    → before_stop (b ++ rest) ≡ b
before_stop-append [] [] h e = refl
before_stop-append [] (c ∷ rest) h e = rw e refl
before_stop-append (c ∷ b) rest h e = rw (h.0, before_stop-append b rest h.1 e) refl

ends_in_quote-append : (b : Bytes) → ends_in_quote (b ++ 34 ∷ []) ≡ true
ends_in_quote-append [] = refl
ends_in_quote-append (c ∷ []) = refl
ends_in_quote-append (c ∷ d ∷ b) = ends_in_quote-append (d ∷ b)

unquoted_anyway : (long : Bool) (b c : Bytes) → (if long && false then c else b) ≡ b
unquoted_anyway true b c = refl
unquoted_anyway false b c = refl

remove_quotes-plain : (b : Bytes) → begins_with_quote b ≡ false → remove_quotes b ≡ b
remove_quotes-plain b e = rw (remove_quotes, e) (unquoted_anyway (leb 2 (length b)) b _)

remove_quotes-quoted : (b : Bytes) → remove_quotes (34 ∷ b ++ 34 ∷ []) ≡ b
remove_quotes-quoted b =
    let n : length (b ++ 34 ∷ []) ≡ length b + 1 = length-append b (34 ∷ []) in
    let long : leb 2 (suc (length (b ++ 34 ∷ []))) ≡ true =
      rw n (le→leb 2 (suc (length b + 1)) (omega arith)) in
    let last : ends_in_quote (34 ∷ b ++ 34 ∷ []) ≡ true = ends_in_quote-append (34 ∷ b) in
    let cut : suc (length (b ++ 34 ∷ [])) - 2 ≡ length b = rw n (omega arith) in
    rw (remove_quotes, long, last, cut) (take-length-append b (34 ∷ []))

unquoted-spell_boundary :
    (quoted : Bool) (b rest : Bytes)
    → All (λ c. is_stop c ≡ false) b
    → begins_with_quote b ≡ false
    → stops rest ≡ true
    → remove_quotes (before_stop (spell_boundary quoted b ++ rest)) ≡ b
unquoted-spell_boundary true b rest h q e =
    let clean : All (λ c. is_stop c ≡ false) (34 ∷ b ++ 34 ∷ []) =
      (refl, All-append (λ c. is_stop c ≡ false) b (34 ∷ []) h (refl, tt)) in
    ap remove_quotes (before_stop-append (34 ∷ b ++ 34 ∷ []) rest clean e) ∙ remove_quotes-quoted b
unquoted-spell_boundary false b rest h q e =
    ap remove_quotes (before_stop-append b rest h e) ∙ remove_quotes-plain b q

-- The boundary of a content type, with or without quotes around it, is what stands behind
-- "boundary=" up to a semicolon, a blank or the end, if it holds none of these itself and, without
-- quotes, does not begin with one, and nothing in front of it holds the letter b.
extract_boundary-spell_boundary :
    (quoted : Bool) (front b rest : Bytes)
    → Lacks b'b' front
    → All (λ c. is_stop c ≡ false) b
    → begins_with_quote b ≡ false
    → stops rest ≡ true
    → extract_boundary (front ++ (codes "boundary=" ++ (spell_boundary quoted b ++ rest))) ≡ b
unfolding extract_boundary
extract_boundary-spell_boundary quoted front b rest hf hb q e =
    let t = spell_boundary quoted b ++ rest in
    let behind : drop (length front + 9) (front ++ (codes "boundary=" ++ t)) ≡ t =
      drop-add (length front) 9 (front ++ (codes "boundary=" ++ t))
      ∙ ap (drop 9) (drop-length-append front (codes "boundary=" ++ t)) in
    rw (extract_boundary, find_text-front b'b' (codes "oundary=") front t hf, behind)
      (unquoted-spell_boundary quoted b rest hb q e)
