-- ===== src/Base64.antt =====
-- Base64 decoding: that of the authentication middleware
-- (include/foxhttp/middleware/advanced/auth_middleware.hpp), which passes over other characters, and
-- that of the multipart parser (src/parser/multipart_parser.cpp), which ends at the first of them.
-- `val` is the bit pattern of a 32-bit `int`; `bits` is `valb` moved up by 8.
pub mod Laws
use foxhttp.Prelude.{
  ℕ, zero, suc, ◌+◌, ◌-◌, ◌*◌, ◌/◌, ◌%◌, ◌^◌, ◌≤◌, ◌<◌, ◌≡◌, refl, sym, ap, ◌∙◌, subst, ◌≢◌, ◌↔◌,
  ◌⊎◌, inl, inr, Bool, true, false, ◌&&◌, ◌||◌, not, Option, none, some, List, [], ◌∷◌, ◌++◌, map,
  append-nil, append_assoc, arith, ltb, leb, ◌==◌, if◌then◌else◌, ltb→lt, lt→ltb, leb→le, le→leb,
  ==_iff, ==_refl, ne→==, tests, Bool-cases, Option-cases, Result, ok, err, Result-cases, length,
  get_elem?, take, drop, is_empty, keep, length-append, take-append-drop, length-drop,
  take-length-append, drop-length-append, drop-add, drop-past, All, All-append, Bytes, codes, same,
  find, has, starts_with, Lacks, same_iff, same_refl, find-append, find-eq-none, find-lt-length,
  find-Lacks, find_split, drop_at, lookup, insert, lookup-insert, is_empty_of_lookup, lookup-nil,
  getlines, begin_line, has_suffix, is_space, is_alnum, hex_value, hex_digit, stream_hex, stoi_hex,
  hex_value-hex_digit, getlines-append, getlines-one, between, join, IsLine, getlines-join,
  drop_behind, is_empty-append, ne_of_same, to_string,
}

-- `T[c]`, with `none` for -1, and the index in `chars`.
unfoldable pub sextet : ℕ → Option ℕ
sextet c =
    if between 65 90 c
    then some (c - 65)
    else if between 97 122 c
    then some (c - 71)
    else if between 48 57 c
    then some (c + 4)
    else if c == b'+'
    then some 62
    else if c == b'/'
    then some 63
    else none

-- `val = (val << 6) + t`
abbrev pub shift_in : ℕ → ℕ → ℕ
shift_in val t = (val * 64 + t) % 2 ^ 32

-- `AuthMiddleware::base64_decode`
unfoldable pub decode_skipping : Bytes → ℕ → ℕ → Bytes
unfolding sextet
decode_skipping [] val bits = []
decode_skipping (c ∷ s) val bits = elim (c == b'=') [
  | true ↦ []
  | false ↦ elim (sextet c) [
    | none ↦ decode_skipping s val bits
    | some t ↦ elim (leb 8 (bits + 6)) [
      | true ↦ shift_in val t / 2 ^ (bits - 2) % 256 ∷ decode_skipping s (shift_in val t) (bits - 2)
      | false ↦ decode_skipping s (shift_in val t) (bits + 6)
    ]
  ]
]

unfoldable pub base64_decode : Bytes → Bytes
unfolding decode_skipping
base64_decode s = decode_skipping s 0 0

-- `MultipartParserImpl::base64_decode`
unfoldable pub decode_strictly : Bytes → ℕ → ℕ → Bytes
unfolding sextet
decode_strictly [] val bits = []
decode_strictly (c ∷ s) val bits = elim (sextet c) [
  | none ↦ []
  | some t ↦ elim (leb 8 (bits + 6)) [
    | true ↦ shift_in val t / 2 ^ (bits - 2) % 256 ∷ decode_strictly s (shift_in val t) (bits - 2)
    | false ↦ decode_strictly s (shift_in val t) (bits + 6)
  ]
]

unfoldable pub base64_decode_string : Bytes → Bytes
unfolding decode_strictly
base64_decode_string s = decode_strictly s 0 0
