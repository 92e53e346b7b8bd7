-- ===== src/Server/Context/Cookies.antt =====
-- What a Cookie header is read as.
use foxhttp.Prelude.{
  ◌≡◌, refl, ap, ◌∙◌, ◌≢◌, inl, inr, true, Option, none, some, List, [], ◌∷◌, ◌++◌, map, arith,
  if◌then◌else◌, Bool-cases, Option-cases, take-length-append, All, All-append, Bytes, same, Lacks,
  find-append, lookup, insert, lookup-insert, lookup-nil, join, IsLine, getlines-join, drop_behind,
  is_empty-append,
}
use foxhttp.Server.Context.{
  is_blank, erase_front, erase_back, erase_blanks, parse_cookie_pairs, parse_cookies, cookie,
}

-- A cookie as it stands in a header: blanks, its name, and behind the '=' its value.
pub record Written : Type 0 where
  pub blanks : Bytes
  pub name : Bytes
  pub value : Bytes

abbrev pub text : Written → Bytes
text c = (c.blanks ++ c.name) ++ b'=' ∷ c.value

-- No separator inside, and no blank at either end of the name or the value.
pub record IsCookie (c : Written) : Type 0 where
  pub blank : All (λ b. is_blank b ≡ true) c.blanks
  pub one_piece : Lacks b';' (c.blanks ++ c.name)
  pub plain_name : Lacks b'=' (c.blanks ++ c.name)
  pub plain_value : Lacks b';' c.value
  pub bare_name : erase_blanks c.name ≡ c.name
  pub bare_value : erase_blanks c.value ≡ c.value

-- The last value that the cookies give under a name.
abbrev pub last_given : Bytes → List Written → Option Bytes
last_given k [] = none
last_given k (c ∷ cs) = elim (last_given k cs) [
  | some v ↦ some v
  | none ↦ if same c.name k then some c.value else none
]

erase_front-blanks :
    (blanks s : Bytes)
    → All (λ b. is_blank b ≡ true) blanks
    → erase_front (blanks ++ s) ≡ erase_front s
erase_front-blanks [] s h = refl
erase_front-blanks (b ∷ blanks) s h = rw h.0 (erase_front-blanks blanks s h.1)

erased_name : (c : Written) → IsCookie c → erase_blanks (c.blanks ++ c.name) ≡ c.name
erased_name c h = ap erase_back (erase_front-blanks c.blanks c.name h.blank) ∙ h.bare_name

text-IsLine : (c : Written) → IsCookie c → IsLine b';' (text c)
text-IsLine c h = (
  is_empty-append (c.blanks ++ c.name) c.value b'=',
  All-append (λ x. x ≢ b';') (c.blanks ++ c.name) (b'=' ∷ c.value) h.one_piece
      (ground arith, h.plain_value),
)

texts-IsLine : (cs : List Written) → All IsCookie cs → All (IsLine b';') (map text cs)
texts-IsLine [] h = tt
texts-IsLine (c ∷ cs) h = (text-IsLine c h.0, texts-IsLine cs h.1)

parse_cookie-text :
    (c : Written) (pairs : List Bytes) (cookies : List (Bytes × Bytes))
    → IsCookie c
    → parse_cookie_pairs (text c ∷ pairs) cookies
      ≡ parse_cookie_pairs pairs (insert c.name c.value cookies)
unfolding parse_cookie_pairs
parse_cookie-text c pairs cookies h =
    let front = c.blanks ++ c.name in
    rw (
      find-append b'=' front c.value h.plain_name,
      parse_cookie_pairs,
      take-length-append front (b'=' ∷ c.value),
      drop_behind front c.value b'=',
      erased_name c h,
      h.bare_value,
    )

lookup-parse_cookie_pairs :
    (k : Bytes) (cs : List Written) (cookies : List (Bytes × Bytes))
    → All IsCookie cs
    → lookup k (parse_cookie_pairs (map text cs) cookies)
      ≡ elim (last_given k cs) [ some v ↦ some v | none ↦ lookup k cookies ]
unfolding parse_cookie_pairs
lookup-parse_cookie_pairs k [] cookies h = refl
lookup-parse_cookie_pairs k (c ∷ cs) cookies h =
    ap (lookup k) (parse_cookie-text c (map text cs) cookies h.0)
    ∙ lookup-parse_cookie_pairs k cs (insert c.name c.value cookies) h.1
    ∙ elim (Option-cases (last_given k cs)) [
      | inr (v, q) ↦ rw (q, last_given) refl
      | inl q ↦ elim (Bool-cases (same c.name k)) [
        | inl hit ↦ rw (q, last_given, hit) (lookup-insert c.name k c.value cookies ∙ rw hit refl)
        | inr miss ↦
            rw (q, last_given, miss) (lookup-insert c.name k c.value cookies ∙ rw miss refl)
      ]
    ]

cookie_of :
    (k : Bytes) (cookies : List (Bytes × Bytes)) (found : Option Bytes)
    → lookup k cookies ≡ found
    → cookie k cookies ≡ elim found [ some v ↦ v | none ↦ [] ]
unfolding cookie
cookie_of k cookies found e = rw (cookie, e)

-- A header that lists cookies, separated by ';' and with blanks in front of their names or
-- without, gives every cookie its value, the last one where a name stands twice, and the empty
-- text to a name that it does not list.
pub cookie-parse_cookies :
    (k : Bytes) (cs : List Written)
    → All IsCookie cs
    → cookie k (parse_cookies (some (join b';' (map text cs))))
      ≡ elim (last_given k cs) [ some v ↦ v | none ↦ [] ]
unfolding parse_cookies
cookie-parse_cookies k cs h = rw (getlines-join b';' (map text cs) (texts-IsLine cs h)) (
    cookie_of k (parse_cookie_pairs (map text cs) []) _ (lookup-parse_cookie_pairs k cs [] h)
    ∙ elim (Option-cases (last_given k cs)) [
      | inr (v, q) ↦ rw q refl
      | inl q ↦ rw q (rw (lookup-nil {V = Bytes} k))
    ])
