-- ===== src/Base64/Laws.antt =====
-- Both decoders read back what the encoding of RFC 4648 writes.
use foxhttp.Prelude.{
  ℕ, ◌+◌, ◌-◌, ◌*◌, ◌/◌, ◌%◌, ◌^◌, ◌<◌, ◌≡◌, refl, ◌∙◌, true, false, some, [], ◌∷◌, arith, ltb, leb,
  ◌==◌, if◌then◌else◌, All, Bytes,
}
use foxhttp.Base64.{
  sextet, shift_in, decode_skipping, base64_decode, decode_strictly, base64_decode_string,
}

abbrev pub digit : ℕ → ℕ
digit t =
    if ltb t 26
    then t + 65
    else if ltb t 52
    then t + 71
    else if ltb t 62
    then t - 4
    else if t == 62
    then b'+'
    else b'/'

-- The encoding with padding.
abbrev pub base64_encode : Bytes → Bytes
base64_encode [] = []
base64_encode (a ∷ []) = digit (a / 4) ∷ digit (a % 4 * 16) ∷ b'=' ∷ b'=' ∷ []
base64_encode (a ∷ b ∷ []) =
    digit (a / 4) ∷ digit (a % 4 * 16 + b / 16) ∷ digit (b % 16 * 4) ∷ b'=' ∷ []
base64_encode (a ∷ b ∷ c ∷ s) =
    digit (a / 4)
    ∷ digit (a % 4 * 16 + b / 16)
    ∷ digit (b % 16 * 4 + c / 64)
    ∷ digit (c % 64)
    ∷ base64_encode s

sextet-digit : (t : ℕ) → t < 64 → sextet (digit t) ≡ some t
unfolding sextet
sextet-digit t h = ground arith

digit-ne-pad : (t : ℕ) → t < 64 → (digit t == b'=') ≡ false
digit-ne-pad t h = ground arith

-- The three bytes of a group of four digits, whatever stood before them.
first_byte :
    (a low val : ℕ)
    → a < 256
    → low < 16
    → shift_in (shift_in val (a / 4)) (a % 4 * 16 + low) / 16 % 256 ≡ a
first_byte a low val ha hl = omega arith

last_byte : (a val : ℕ) → a < 256 → shift_in (shift_in val (a / 4)) (a % 4 * 16) / 16 % 256 ≡ a
last_byte a val ha = omega arith

last_two :
    (high b val : ℕ)
    → high < 4
    → b < 256
    → shift_in (shift_in val (high * 16 + b / 16)) (b % 16 * 4) / 4 % 256 ≡ b
last_two high b val hh hb = omega arith

second_byte :
    (high b low val : ℕ)
    → high < 4
    → b < 256
    → low < 4
    → shift_in (shift_in val (high * 16 + b / 16)) (b % 16 * 4 + low) / 4 % 256 ≡ b
second_byte high b low val hh hb hl = omega arith

third_byte :
    (high c val : ℕ)
    → high < 16
    → c < 256
    → shift_in (shift_in val (high * 4 + c / 64)) (c % 64) / 1 % 256 ≡ c
third_byte high c val hh hc = omega arith

-- What both loops do with a digit, and where they end.
module _ (loop : Bytes → ℕ → ℕ → Bytes) where
  pub record Decodes : Type 0 where
    pub ends : (val bits : ℕ) → loop [] val bits ≡ []
    pub stops : (s : Bytes) (val bits : ℕ) → loop (b'=' ∷ s) val bits ≡ []
    pub keeps :
        (t val bits : ℕ) (s : Bytes)
        → t < 64
        → leb 8 (bits + 6) ≡ false
        → loop (digit t ∷ s) val bits ≡ loop s (shift_in val t) (bits + 6)
    pub emits :
        (t val bits : ℕ) (s : Bytes)
        → t < 64
        → leb 8 (bits + 6) ≡ true
        → loop (digit t ∷ s) val bits
          ≡ shift_in val t / 2 ^ (bits - 2) % 256 ∷ loop s (shift_in val t) (bits - 2)

  module _ (d : Decodes) where
    decodes-base64_encode :
        (s : Bytes) (val : ℕ) → All (λ c. c < 256) s → loop (base64_encode s) val 0 ≡ s
    decodes-base64_encode [] val h = d.ends val 0
    decodes-base64_encode (a ∷ []) val h =
        let v1 = shift_in val (a / 4) in
        d.keeps (a / 4) val 0 _ (omega arith) refl
        ∙ d.emits (a % 4 * 16) v1 6 _ (omega arith) refl
        ∙ rw (d.stops, last_byte a val h.0)
    decodes-base64_encode (a ∷ b ∷ []) val h =
        let v1 = shift_in val (a / 4) in
        let v2 = shift_in v1 (a % 4 * 16 + b / 16) in
        d.keeps (a / 4) val 0 _ (omega arith) refl
        ∙ d.emits (a % 4 * 16 + b / 16) v1 6 _ (omega arith) refl
        ∙ rw (
          d.emits (b % 16 * 4) v2 4 (b'=' ∷ []) (omega arith) refl,
          d.stops,
          first_byte a (b / 16) val h.0 (omega arith),
          last_two (a % 4) b v1 (omega arith) h.1.0,
        )
    decodes-base64_encode (a ∷ b ∷ c ∷ s) val h =
        let v1 = shift_in val (a / 4) in
        let v2 = shift_in v1 (a % 4 * 16 + b / 16) in
        let v3 = shift_in v2 (b % 16 * 4 + c / 64) in
        d.keeps (a / 4) val 0 _ (omega arith) refl
        ∙ d.emits (a % 4 * 16 + b / 16) v1 6 _ (omega arith) refl
        ∙ rw (
          d.emits (b % 16 * 4 + c / 64) v2 4 (digit (c % 64) ∷ base64_encode s) (omega arith) refl,
          d.emits (c % 64) v3 2 (base64_encode s) (omega arith) refl,
          first_byte a (b / 16) val h.0 (omega arith),
          second_byte (a % 4) b (c / 64) v1 (omega arith) h.1.0 (omega arith),
          third_byte (b % 16) c v2 (omega arith) h.1.1.0,
          decodes-base64_encode s (shift_in v3 (c % 64)) h.1.1.1,
        )

decode_skipping-Decodes : Decodes decode_skipping
unfolding decode_skipping
decode_skipping-Decodes = record {
  ends = λ val bits. refl;
  stops = λ s val bits. refl;
  keeps = λ t val bits s h k. rw (digit-ne-pad t h, sextet-digit t h, k, decode_skipping);
  emits = λ t val bits s h k. rw (digit-ne-pad t h, sextet-digit t h, k, decode_skipping);
}

decode_strictly-Decodes : Decodes decode_strictly
unfolding decode_strictly sextet
decode_strictly-Decodes = record {
  ends = λ val bits. refl;
  stops = λ s val bits. refl;
  keeps = λ t val bits s h k. rw (sextet-digit t h, k, decode_strictly);
  emits = λ t val bits s h k. rw (sextet-digit t h, k, decode_strictly);
}

-- Both decoders read back every list of bytes from its encoding with padding.
pub base64_decode-base64_encode :
    (s : Bytes)
    → All (λ c. c < 256) s
    → (base64_decode (base64_encode s) ≡ s) × (base64_decode_string (base64_encode s) ≡ s)
unfolding base64_decode base64_decode_string
base64_decode-base64_encode s h = (
  decodes-base64_encode decode_skipping decode_skipping-Decodes s 0 h,
  decodes-base64_encode decode_strictly decode_strictly-Decodes s 0 h,
)
