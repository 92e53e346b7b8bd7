-- ===== src/Url/Laws.antt =====
-- Decoding undoes encoding, and what an encoded text cannot contain.
use foxhttp.Prelude.{
  ℕ, ◌+◌, ◌*◌, ◌/◌, ◌%◌, ◌<◌, ◌≡◌, refl, ap, ◌≢◌, inl, inr, false, ◌&&◌, ◌||◌, Option, some, [],
  ◌∷◌, arith, ◌==◌, ne→==, Bool-cases, All, Bytes, Lacks, hex_value, hex_digit, stream_hex,
  stoi_hex, hex_value-hex_digit,
}
use foxhttp.Url.{is_unreserved, url_encode, decode_with}

small : (y : ℕ) → y < 16 → hex_digit y < 71
small y h = ground arith

digits : (x y : ℕ) → x < 16 → y < 16 → stoi_hex (hex_digit x) (hex_digit y) ≡ some (16 * x + y)
digits x y hx hy =
    let first : hex_value (hex_digit x) ≡ some x = hex_value-hex_digit x hx in
    let second : hex_value (hex_digit y) ≡ some y = hex_value-hex_digit y hy in
    rw (stoi_hex, first, second)

-- A reader of two characters that reads what `url_encode` writes.
abbrev pub Reads : (ℕ → ℕ → Option ℕ) → Type 0
Reads read = (x y : ℕ) → x < 16 → y < 16 → read (hex_digit x) (hex_digit y) ≡ some (16 * x + y)

pub stoi_hex-Reads : Reads stoi_hex
stoi_hex-Reads = digits

pub stream_hex-Reads : Reads stream_hex
stream_hex-Reads x y hx hy =
    let no_prefix : ((hex_digit x == 48) && ((hex_digit y == 120) || (hex_digit y == 88))) ≡ false =
      ground (arith, small y hy) in
    rw no_prefix (digits x y hx hy)

module _ (read : ℕ → ℕ → Option ℕ) where
  decode-plain :
      (c : ℕ) (s : Bytes) → c ≢ b'%' → c ≢ b'+' → decode_with read (c ∷ s) ≡ c ∷ decode_with read s
  unfolding decode_with
  decode-plain c [] p q = rw (ne→== c 43 q)
  decode-plain c (a ∷ []) p q = rw (ne→== c 43 q)
  decode-plain c (a ∷ b ∷ s) p q = rw (ne→== c 37 p, ne→== c 43 q, decode_with)

  decode-escaped :
      (x y : ℕ) (s : Bytes)
      → Reads read
      → x < 16
      → y < 16
      → decode_with read (b'%' ∷ hex_digit x ∷ hex_digit y ∷ s) ≡ (16 * x + y) ∷ decode_with read s
  unfolding decode_with
  decode-escaped x y s reads hx hy = rw (decode_with, reads x y hx hy)

  pub decode_with-url_encode :
      (s : Bytes) → Reads read → All (λ c. c < 256) s → decode_with read (url_encode s) ≡ s
  unfolding url_encode decode_with
  decode_with-url_encode [] reads h = refl
  decode_with-url_encode (c ∷ s) reads h = elim (Bool-cases (is_unreserved c)) [
    | inl plain ↦ rw (
      plain,
      decode-plain c (url_encode s) (ground arith) (ground arith),
      decode_with-url_encode s reads h.1,
    )
    | inr other ↦
        rw
          (
            other,
            decode-escaped (c / 16) (c % 16) (url_encode s) reads (ground arith) (ground arith),
            decode_with-url_encode s reads h.1,
          )
          (ap (λ n. n ∷ s) (omega arith))
  ]

-- Encoded text holds no byte that is neither unreserved nor '%': no '&', no '=' and no '+'.
pub url_encode-Lacks :
    (d : ℕ) (s : Bytes)
    → is_unreserved d ≡ false
    → d ≢ b'%'
    → All (λ c. c < 256) s
    → Lacks d (url_encode s)
unfolding url_encode
url_encode-Lacks d [] odd p h = tt
url_encode-Lacks d (c ∷ s) odd p h = elim (Bool-cases (is_unreserved c)) [
  | inl plain ↦ rw plain (ground arith, url_encode-Lacks d s odd p h.1)
  | inr other ↦
      rw other (ground arith, (ground arith, (ground arith, url_encode-Lacks d s odd p h.1)))
]
