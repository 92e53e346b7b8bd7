-- ===== src/Server/Context.antt =====
-- `RequestContext`: src/server/request_context.cpp. The request is its target and, where there is
-- one, its Cookie header; the maps are association lists.
pub mod Query
pub mod Cookies
use foxhttp.Prelude.{
  ℕ, zero, suc, ◌+◌, ◌-◌, ◌*◌, ◌/◌, ◌%◌, ◌^◌, ◌≤◌, ◌<◌, ◌≡◌, refl, sym, ap, ◌∙◌, subst, ◌≢◌, ◌↔◌,
  ◌⊎◌, inl, inr, Bool, true, false, ◌&&◌, ◌||◌, not, Option, none, some, List, [], ◌∷◌, ◌++◌, map,
  append-nil, append_assoc, arith, ltb, leb, ◌==◌, if◌then◌else◌, ltb→lt, lt→ltb, leb→le, le→leb,
  ==_iff, ==_refl, ne→==, tests, Bool-cases, Option-cases, Result, ok, err, Result-cases, length,
  get_elem?, take, drop, is_empty, keep, length-append, take-append-drop, length-drop,
  take-length-append, drop-length-append, drop-add, drop-past, All, All-append, Bytes, codes, same,
  find, has, starts_with, Lacks, same_iff, same_refl, find-append, find-eq-none, find-lt-length,
  find-Lacks, find_split, drop_at, lookup, insert, lookup-insert, is_empty_of_lookup, lookup-nil,
  getlines, begin_line, has_suffix, is_space, is_alnum, hex_value, hex_digit, stream_hex, stoi_hex,
  hex_value-hex_digit, getlines-append, getlines-one, between, trim_front_by, trim_back_by,
  to_string,
}
use foxhttp.Url.{decode_with}

unfoldable pub url_decode : Bytes → Bytes
unfolding decode_with
url_decode text = decode_with stoi_hex text

-- Everything in front of the first '?', and everything behind it.
unfoldable pub path : Bytes → Bytes
path target = elim (find b'?' target) [ some i ↦ take i target | none ↦ target ]

unfoldable pub query : Bytes → Bytes
query target = elim (find b'?' target) [ some i ↦ drop (suc i) target | none ↦ [] ]

-- `query_params_[key].push_back(v)`
abbrev pub values_of : Bytes → List (Bytes × List Bytes) → List Bytes
values_of key params = elim (lookup key params) [ none ↦ [] | some vs ↦ vs ]

unfoldable pub push_back : Bytes → Bytes → List (Bytes × List Bytes) → List (Bytes × List Bytes)
push_back key v params = insert key (values_of key params ++ v ∷ []) params

-- The loop over the pieces of one value.
abbrev pub push_values : Bytes → List Bytes → List (Bytes × List Bytes) → List (Bytes × List Bytes)
push_values key [] params = params
push_values key ([] ∷ vs) params = push_values key vs params
push_values key ((c ∷ v) ∷ vs) params = push_values key vs (push_back key (c ∷ v) params)

abbrev pub key_of : Bytes → Bytes
key_of pair = elim (find b'=' pair) [ some i ↦ take i pair | none ↦ pair ]

abbrev pub value_of : Bytes → Bytes
value_of pair = elim (find b'=' pair) [ some i ↦ drop (suc i) pair | none ↦ [] ]

unfoldable pub parse_pairs : List Bytes → List (Bytes × List Bytes) → List (Bytes × List Bytes)
unfolding url_decode
parse_pairs [] params = params
parse_pairs (pair ∷ pairs) params =
    if is_empty pair
    then parse_pairs pairs params
    else parse_pairs pairs
        (push_values (url_decode (key_of pair)) (getlines b',' (url_decode (value_of pair))) params)

unfoldable pub parse_query : Bytes → List (Bytes × List Bytes)
unfolding parse_pairs
parse_query text = parse_pairs (getlines b'&' text) []

-- `erase` up to the first and from behind the last character that is not a blank or a tab.
abbrev pub is_blank : ℕ → Bool
is_blank c = (c == 32) || (c == 9)

abbrev pub erase_front : Bytes → Bytes
erase_front = trim_front_by is_blank

abbrev pub erase_back : Bytes → Bytes
erase_back = trim_back_by is_blank

abbrev pub erase_blanks : Bytes → Bytes
erase_blanks s = erase_back (erase_front s)

unfoldable pub parse_cookie_pairs : List Bytes → List (Bytes × Bytes) → List (Bytes × Bytes)
parse_cookie_pairs [] cookies = cookies
parse_cookie_pairs (pair ∷ pairs) cookies = elim (find b'=' pair) [
  | none ↦ parse_cookie_pairs pairs cookies
  | some i ↦
      parse_cookie_pairs pairs
        (insert (erase_blanks (take i pair)) (erase_blanks (drop (suc i) pair)) cookies)
]

unfoldable pub parse_cookies : Option Bytes → List (Bytes × Bytes)
unfolding parse_cookie_pairs
parse_cookies none = []
parse_cookies (some header) = parse_cookie_pairs (getlines b';' header) []

-- A lookup that gives the empty text on a missing key: `cookie` and `path_parameter`.
unfoldable pub cookie : Bytes → List (Bytes × Bytes) → Bytes
cookie key cookies = elim (lookup key cookies) [ none ↦ [] | some v ↦ v ]

pub record Context : Type 0 where
  pub target : Bytes
  pub query_params : List (Bytes × List Bytes)
  pub cookies : List (Bytes × Bytes)
  pub path_params : List (Bytes × Bytes)

-- The constructor.
unfoldable pub new_context : Bytes → Option Bytes → Context
unfolding parse_query parse_cookies
new_context target header = record {
  target = target;
  query_params = elim (find b'?' target) [ some i ↦ parse_query (drop (suc i) target) | none ↦ [] ];
  cookies = parse_cookies header;
  path_params = [];
}

abbrev pub set_path_parameters : List (Bytes × Bytes) → Context → Context
set_path_parameters params ctx = record ctx { path_params = params }
