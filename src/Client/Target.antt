-- ===== src/Client/Target.antt =====
-- The URLs of `HttpClient` (src/client/http_client.cpp). Whether the build has TLS is an argument.
pub mod Laws
use foxhttp.Prelude.{
  ℕ, zero, suc, ◌+◌, ◌-◌, ◌*◌, ◌/◌, ◌%◌, ◌^◌, ◌≤◌, ◌<◌, ◌≡◌, refl, sym, ap, ◌∙◌, subst, ◌≢◌, ◌↔◌,
  ◌⊎◌, inl, inr, Bool, true, false, ◌&&◌, ◌||◌, not, Option, none, some, List, [], ◌∷◌, ◌++◌, map,
  append-nil, append_assoc, arith, ltb, leb, ◌==◌, if◌then◌else◌, ltb→lt, lt→ltb, leb→le, le→leb,
  ==_iff, ==_refl, ne→==, tests, Bool-cases, Option-cases, Result, ok, err, Result-cases, length,
  get_elem?, take, drop, is_empty, keep, length-append, take-append-drop, length-drop,
  take-length-append, drop-length-append, drop-add, drop-past, All, All-append, Bytes, codes, same,
  find, has, starts_with, Lacks, same_iff, same_refl, find-append, find-eq-none, find-lt-length,
  find-Lacks, find_split, drop_at, lookup, insert, lookup-insert, is_empty_of_lookup, lookup-nil,
  getlines, begin_line, has_suffix, is_space, is_alnum, hex_value, hex_digit, stream_hex, stoi_hex,
  hex_value-hex_digit, getlines-append, getlines-one, between, join, IsLine, getlines-join,
  drop_behind, is_empty-append, ne_of_same, find_text, to_string,
}
use mathlib.Core.Option

abbrev tolower : ℕ → ℕ
tolower c = if between 65 90 c then c + 32 else c

abbrev ci_eq : ℕ → ℕ → Bool
ci_eq a b = tolower a == tolower b

unfoldable pub starts_with_ci : Bytes → Bytes → Bool
starts_with_ci s [] = true
starts_with_ci [] (y ∷ p) = false
starts_with_ci (x ∷ s) (y ∷ p) = ci_eq x y && starts_with_ci s p

-- `s.rfind(c)`
unfoldable pub rfind : ℕ → Bytes → Option ℕ
rfind c [] = none
rfind c (x ∷ s) = elim (rfind c s) [
  | some i ↦ some (suc i)
  | none ↦ if x == c then some 0 else none
]

pub record ClientBaseConfig : Type 0 where
  pub https : Bool
  pub host : Bytes
  pub port : Bytes
  pub host_field : Bytes

abbrev pub default_port : Bool → Bytes
default_port https = if https then codes "443" else codes "80"

-- The scheme, and what stands behind it.
unfoldable pub scheme_of : Bool → Bytes → Option (Bool × Bytes)
unfolding starts_with_ci
scheme_of tls url =
    if starts_with_ci url (codes "https://")
    then (if tls then some (true, drop 8 url) else none)
    else if starts_with_ci url (codes "http://")
    then some (false, drop 7 url)
    else none

abbrev pub authority_of : Bytes → Bytes
authority_of url = elim (find b'/' url) [ none ↦ url | some i ↦ take i url ]

abbrev pub target_of : Bytes → Bytes
target_of url = elim (find b'/' url) [ none ↦ codes "/" | some i ↦ drop i url ]

abbrev pub host_of : Bytes → Bytes
host_of authority = elim (rfind b':' authority) [ none ↦ authority | some i ↦ take i authority ]

abbrev pub port_of : Bool → Bytes → Bytes
port_of https authority = elim (rfind b':' authority) [
  | none ↦ default_port https
  | some i ↦ drop (suc i) authority
]

abbrev pub host_field_of : Bool → Bytes → Bytes → Bytes → Bytes
host_field_of https authority host port =
    if https then authority else (if same port (codes "80") then host else authority)

unfoldable pub base_of : Bool → Bytes → ClientBaseConfig
unfolding rfind
base_of https authority = record {
  https = https;
  host = host_of authority;
  port = port_of https authority;
  host_field = host_field_of https authority (host_of authority) (port_of https authority);
}

unfoldable pub parse_absolute_url : Bool → Bytes → Option (ClientBaseConfig × Bytes)
unfolding scheme_of base_of
parse_absolute_url tls url = elim (scheme_of tls url) [
  | none ↦ none
  | some found ↦
      let base = base_of found.0 (authority_of found.1) in
      if is_empty base.host then none else some (base, target_of found.1)
]

abbrev pub parse_base_only : Bool → Bytes → Option ClientBaseConfig
parse_base_only tls url =
    Option.map (λ (r : ClientBaseConfig × Bytes). r.0) (parse_absolute_url tls url)

unfoldable pub normalize_relative_target : Bytes → Bytes
normalize_relative_target [] = codes "/"
normalize_relative_target (c ∷ t) = if c == b'/' then c ∷ t else b'/' ∷ c ∷ t
