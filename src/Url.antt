-- ===== src/Url.antt =====
-- Percent encoding, as `FormParserImpl::url_encode` writes it, and the loop that the `url_decode` of
-- src/parser/form_parser.cpp and that of src/server/request_context.cpp share.
pub mod Laws
use foxhttp.Prelude.{
  ℕ, zero, suc, ◌+◌, ◌-◌, ◌*◌, ◌/◌, ◌%◌, ◌^◌, ◌≤◌, ◌<◌, ◌≡◌, refl, sym, ap, ◌∙◌, subst, ◌≢◌, ◌↔◌,
  ◌⊎◌, inl, inr, Bool, true, false, ◌&&◌, ◌||◌, not, Option, none, some, List, [], ◌∷◌, ◌++◌, map,
  append-nil, append_assoc, arith, ltb, leb, ◌==◌, if◌then◌else◌, ltb→lt, lt→ltb, leb→le, le→leb,
  ==_iff, ==_refl, ne→==, tests, Bool-cases, Option-cases, Result, ok, err, Result-cases, length,
  get_elem?, take, drop, is_empty, keep, length-append, take-append-drop, length-drop,
  take-length-append, drop-length-append, drop-add, drop-past, All, All-append, Bytes, codes, same,
  find, has, starts_with, Lacks, same_iff, same_refl, find-append, find-eq-none, find-lt-length,
  find-Lacks, find_split, drop_at, lookup, insert, lookup-insert, is_empty_of_lookup, lookup-nil,
  getlines, begin_line, has_suffix, is_space, is_alnum, hex_value, hex_digit, stream_hex, stoi_hex,
  hex_value-hex_digit, getlines-append, getlines-one, between, to_string,
}

-- The loop of `url_decode`, for a way to read two characters as a number.
unfoldable pub decode_with : (ℕ → ℕ → Option ℕ) → Bytes → Bytes
decode_with read [] = []
decode_with read (c ∷ []) = (if c == b'+' then 32 else c) ∷ []
decode_with read (c ∷ a ∷ []) = (if c == b'+' then 32 else c) ∷ (if a == b'+' then 32 else a) ∷ []
decode_with read (c ∷ a ∷ b ∷ s) = elim (c == b'%') [
  | true ↦ elim (read a b) [
    | some v ↦ v ∷ decode_with read s
    | none ↦ c ∷ decode_with read (a ∷ b ∷ s)
  ]
  | false ↦ (if c == b'+' then 32 else c) ∷ decode_with read (a ∷ b ∷ s)
]

abbrev pub is_unreserved : ℕ → Bool
is_unreserved c = is_alnum c || ((c == b'-') || ((c == b'_') || ((c == b'.') || (c == b'~'))))

unfoldable pub url_encode : Bytes → Bytes
url_encode [] = []
url_encode (c ∷ s) =
    if is_unreserved c
    then c ∷ url_encode s
    else b'%' ∷ hex_digit (c / 16) ∷ hex_digit (c % 16) ∷ url_encode s
