-- ===== src/Client/Target/Laws.antt =====
-- URLs are read as they are put together.
use foxhttp.Prelude.{
  ℕ, ◌≡◌, refl, sym, ap, ◌∙◌, subst, ◌≢◌, Bool, true, false, Option, none, some, [], ◌∷◌, ◌++◌,
  append-nil, ◌&&◌, not, same, arith, if◌then◌else◌, ==_refl, ne→==, length, is_empty,
  take-length-append, drop-length-append, All-append, Bytes, codes, Lacks, find-append,
  find-eq-none, drop_behind,
}
use foxhttp.Client.Target.{
  rfind, ClientBaseConfig, default_port, host_of, port_of, host_field_of, scheme_of, authority_of,
  target_of, base_of, parse_absolute_url,
}

-- A host, perhaps a port, and a path that is empty or begins with '/'.
pub record Url : Type 0 where
  pub https : Bool
  pub host : Bytes
  pub port : Option Bytes
  pub path : Bytes

abbrev pub scheme : Bool → Bytes
scheme https = if https then codes "https://" else codes "http://"

abbrev pub authority : Url → Bytes
authority u = elim u.port [ none ↦ u.host | some p ↦ u.host ++ b':' ∷ p ]

abbrev pub spell_url : Url → Bytes
spell_url u = scheme u.https ++ (authority u ++ u.path)

abbrev IsPath : Bytes → Type 0
IsPath [] = Unit
IsPath (c ∷ s) = c ≡ b'/'

abbrev IsPort : Option Bytes → Type 0
IsPort none = Unit
IsPort (some p) = Lacks b'/' p × Lacks b':' p

pub record IsUrl (u : Url) : Type 0 where
  pub host_full : is_empty u.host ≡ false
  pub host_slash : Lacks b'/' u.host
  pub host_colon : Lacks b':' u.host
  pub port_clean : IsPort u.port
  pub path_clean : IsPath u.path

rfind-none : (c : ℕ) (s : Bytes) → Lacks c s → rfind c s ≡ none
unfolding rfind
rfind-none c [] h = refl
rfind-none c (x ∷ s) h = rw (rfind, rfind-none c s h.1, ne→== x c h.0)

rfind-append : (c : ℕ) (a b : Bytes) → Lacks c b → rfind c (a ++ c ∷ b) ≡ some (length a)
unfolding rfind
rfind-append c [] b h = rw (rfind, rfind-none c b h, ==_refl c)
rfind-append c (x ∷ a) b h = rw (rfind, rfind-append c a b h)

scheme_of-scheme :
    (https tls : Bool) (s : Bytes)
    → (https ≡ true → tls ≡ true)
    → scheme_of tls (scheme https ++ s) ≡ some (https, s)
unfolding scheme_of
scheme_of-scheme true tls s h = rw (h refl)
scheme_of-scheme false tls s h = refl

split_slash :
    (a path : Bytes)
    → Lacks b'/' a
    → (authority_of (a ++ b'/' ∷ path) ≡ a) × (target_of (a ++ b'/' ∷ path) ≡ b'/' ∷ path)
split_slash a path h =
    rw (authority_of, target_of, find-append b'/' a path h)
      (take-length-append a (b'/' ∷ path), drop-length-append a (b'/' ∷ path))

split_path :
    (a path : Bytes)
    → Lacks b'/' a
    → IsPath path
    → (authority_of (a ++ path) ≡ a)
      × (target_of (a ++ path) ≡ (if is_empty path then codes "/" else path))
split_path a [] h p =
    rw (append-nil a, authority_of, target_of, find-eq-none b'/' a h) (append-nil a, refl)
split_path a (c ∷ path) h p =
    subst (λ x. (authority_of (a ++ x ∷ path) ≡ a) × (target_of (a ++ x ∷ path) ≡ x ∷ path)) (sym p)
      (split_slash a path h)

-- What a URL stands for.
abbrev scheme_port : Bool → Bytes
scheme_port true = codes "443"
scheme_port false = codes "80"

abbrev port_text : Url → Bytes
port_text u = elim u.port [ none ↦ scheme_port u.https | some p ↦ p ]

-- What stands in the Host header: the authority, but the host alone for http on port 80.
abbrev host_header : Url → Bytes
host_header u = elim u.port [
  | none ↦ u.host
  | some p ↦ if not u.https && same p (codes "80") then u.host else u.host ++ b':' ∷ p
]

abbrev pub base : Url → ClientBaseConfig
base u = record { https = u.https; host = u.host; port = port_text u; host_field = host_header u }

base_of-none :
    (https : Bool) (host : Bytes)
    → Lacks b':' host
    → base_of https host ≡ record {
      https = https;
      host = host;
      port = default_port https;
      host_field = host_field_of https host host (default_port https);
    }
unfolding base_of
base_of-none https host h = rw (base_of, host_of, port_of, rfind-none b':' host h)

base_of-port :
    (https : Bool) (host port : Bytes)
    → Lacks b':' port
    → base_of https (host ++ b':' ∷ port) ≡ record {
      https = https;
      host = host;
      port = port;
      host_field = host_field_of https (host ++ b':' ∷ port) host port;
    }
unfolding base_of
base_of-port https host port h = rw (
  base_of,
  host_of,
  port_of,
  rfind-append b':' host port h,
  take-length-append host (b':' ∷ port),
  drop_behind host port b':',
)

Lacks-append : (c : ℕ) (a b : Bytes) → Lacks c a → Lacks c b → Lacks c (a ++ b)
Lacks-append c a b = All-append (λ x. x ≢ c) a b

with_port :
    (https : Bool) (host : Bytes) (port : Option Bytes) (path : Bytes)
    → (let u : Url = record { https = https; host = host; port = port; path = path } in
        IsUrl u → (base_of u.https (authority u) ≡ base u) × Lacks b'/' (authority u))
with_port true host none path v = (base_of-none true host v.host_colon, v.host_slash)
with_port false host none path v = (base_of-none false host v.host_colon, v.host_slash)
with_port true host (some p) path v = (
  base_of-port true host p v.port_clean.1,
  Lacks-append b'/' host (b':' ∷ p) v.host_slash (λ e. absurd (omega arith), v.port_clean.0),
)
with_port false host (some p) path v = (
  base_of-port false host p v.port_clean.1,
  Lacks-append b'/' host (b':' ∷ p) v.host_slash (λ e. absurd (omega arith), v.port_clean.0),
)

abbrev found_base : ClientBaseConfig → Bytes → Option (ClientBaseConfig × Bytes)
found_base b t = if is_empty b.host then none else some (b, t)

finish :
    (b b' : ClientBaseConfig) (t t' : Bytes)
    → b ≡ b'
    → t ≡ t'
    → is_empty b'.host ≡ false
    → found_base b t ≡ some (b', t')
finish b b' t t' p q e = rw (p, q, e)

-- A URL is read as it is put together: scheme, host, port (443 for https and 80 for http where none
-- is given)
-- and path ("/" where it is empty), and the Host header is the host alone exactly for http on port 80.
-- An https URL needs a build with TLS.
pub parse_absolute_url-spell_url :
    (tls : Bool) (u : Url)
    → IsUrl u
    → (u.https ≡ true → tls ≡ true)
    → parse_absolute_url tls (spell_url u)
      ≡ some (base u, if is_empty u.path then codes "/" else u.path)
unfolding parse_absolute_url
parse_absolute_url-spell_url tls u v secure =
    let (read, clean) = with_port u.https u.host u.port u.path v in
    let (front, back) = split_path (authority u) u.path clean v.path_clean in
    rw (parse_absolute_url, scheme_of-scheme u.https tls (authority u ++ u.path) secure)
      (finish _ (base u) _ _ (ap (base_of u.https) front ∙ read) back v.host_full)
