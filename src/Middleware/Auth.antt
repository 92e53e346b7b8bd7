-- ===== src/Middleware/Auth.antt =====
-- `AuthMiddleware` of include/foxhttp/middleware/advanced/auth_middleware.hpp, as it is built without
-- FOXHTTP_ENABLE_JWT. A validator is a function that may throw a `std::exception`; the lookup of a
-- header field, which is empty where there is none, is a field of the request.
pub mod KeyValue
pub mod Outcome
pub mod Gate
use foxhttp.Prelude.{
  ℕ, zero, suc, ◌+◌, ◌-◌, ◌*◌, ◌/◌, ◌%◌, ◌^◌, ◌≤◌, ◌<◌, ◌≡◌, refl, sym, ap, ◌∙◌, subst, ◌≢◌, ◌↔◌,
  ◌⊎◌, inl, inr, Bool, true, false, ◌&&◌, ◌||◌, not, Option, none, some, List, [], ◌∷◌, ◌++◌, map,
  append-nil, append_assoc, arith, ltb, leb, ◌==◌, if◌then◌else◌, ltb→lt, lt→ltb, leb→le, le→leb,
  ==_iff, ==_refl, ne→==, tests, Bool-cases, Option-cases, Result, ok, err, Result-cases, length,
  get_elem?, take, drop, is_empty, keep, length-append, take-append-drop, length-drop,
  take-length-append, drop-length-append, drop-add, drop-past, All, All-append, Bytes, codes, same,
  find, has, starts_with, Lacks, same_iff, same_refl, find-append, find-eq-none, find-lt-length,
  find-Lacks, find_split, drop_at, lookup, insert, lookup-insert, is_empty_of_lookup, lookup-nil,
  getlines, begin_line, has_suffix, is_space, is_alnum, hex_value, hex_digit, stream_hex, stoi_hex,
  hex_value-hex_digit, getlines-append, getlines-one, between, join, IsLine, getlines-join,
  drop_behind, is_empty-append, ne_of_same, to_string,
}
use foxhttp.Base64.{base64_decode}
use foxhttp.Server.Context.{Context, cookie}
use foxhttp.Middleware.Code.{
  Response, Exchange, set_header, answer, Exception, Code, done, write, next, decide, Middleware,
  sync_only, high,
}

pub record AuthUser : Type 0 where
  pub id : Bytes
  pub roles : List Bytes

pub data AuthScheme : Type 0 where
  bearer_jwt basic digest api_key oauth2 session_cookie : AuthScheme

-- `RequestContext`, with the item "auth.user".
pub record Request : Type 0 where
  pub ctx : Context
  pub header : Bytes → Bytes
  pub method_string : Bytes
  pub user : Option AuthUser

-- What a validator returns or throws.
abbrev pub Verdict : Type 0
Verdict = Result Exception (Option AuthUser)

pub record AuthMiddleware : Type 0 where
  pub schemes : List AuthScheme
  pub api_key_header : Bytes
  pub api_keyquery_param : Bytes
  pub session_cookie_name : Bytes
  pub realm : Bytes
  pub jwt_validator : Option (Bytes → Verdict)
  pub basic_validator : Option (Bytes → Bytes → Verdict)
  pub digest_validator : Option (List (Bytes × Bytes) → Bytes → Verdict)
  pub api_key_validator : Option (Bytes → Verdict)
  pub oauth2_validator : Option (Bytes → Verdict)
  pub session_lookup : Option (Bytes → Verdict)

-- The constructor.
abbrev pub new_auth : List AuthScheme → AuthMiddleware
new_auth schemes = record {
  schemes = schemes;
  api_key_header = codes "X-API-Key";
  api_keyquery_param = codes "api_key";
  session_cookie_name = codes "SESSIONID";
  realm = codes "foxhttp";
  jwt_validator = none;
  basic_validator = none;
  digest_validator = none;
  api_key_validator = none;
  oauth2_validator = none;
  session_lookup = none;
}

-- The states K, V and Q of `parse_kv`.
pub data KvState : Type 0 where
  in_key in_value in_quotes : KvState

abbrev pub is_key_char : ℕ → Bool
is_key_char c = is_alnum c || ((c == b'-') || (c == b'_'))

-- `std::iscntrl`
abbrev pub is_cntrl : ℕ → Bool
is_cntrl c = ltb c 32 || (c == 127)

unfoldable pub kv_loop :
    KvState → Bytes → Bytes → List (Bytes × Bytes) → Bytes → List (Bytes × Bytes)
kv_loop state key val out [] = if is_empty key then out else insert key val out
kv_loop in_key key val out (c ∷ s) = elim (c == b'=') [
  | true ↦ kv_loop in_value key val out s
  | false ↦ kv_loop in_key (if is_key_char c then key ++ c ∷ [] else key) val out s
]
kv_loop in_value key val out (c ∷ s) = elim (c == 34) [
  | true ↦ kv_loop in_quotes key val out s
  | false ↦ elim (c == b',') [
    | true ↦ kv_loop in_key [] [] (insert key val out) s
    | false ↦ kv_loop in_value key (if is_cntrl c then val else val ++ c ∷ []) out s
  ]
]
kv_loop in_quotes key val out (c ∷ s) = elim (c == 34) [
  | true ↦ kv_loop in_value key val out s
  | false ↦ kv_loop in_quotes key (if (c == 13) || (c == 10) then val else val ++ c ∷ []) out s
]

unfoldable pub parse_kv : Bytes → List (Bytes × Bytes)
unfolding kv_loop
parse_kv s = kv_loop in_key [] [] [] s

abbrev pub query_param : Request → Bytes → Option Bytes
query_param r key = elim (lookup key r.ctx.query_params) [
  | some (v ∷ vs) ↦ some v
  | some [] ↦ none
  | none ↦ none
]

abbrev pub split_first : Bytes → ℕ → Bytes × Bytes
split_first s delim = elim (find delim s) [ none ↦ (s, []) | some p ↦ (take p s, drop (suc p) s) ]

abbrev pub authorization : Request → Bytes
authorization r = r.header (codes "Authorization")

abbrev pub api_key_of : AuthMiddleware → Request → Bytes
api_key_of m r =
    let key = r.header m.api_key_header in
    if is_empty key
    then elim (query_param r m.api_keyquery_param) [ none ↦ key | some q ↦ q ]
    else key

-- A validator that may not be set.
abbrev pub ask : {A : Type 0} → Option (A → Verdict) → A → Verdict
ask none a = ok none
ask (some v) a = v a

unfoldable pub authenticate : AuthMiddleware → AuthScheme → Request → Verdict
unfolding base64_decode parse_kv cookie
authenticate m bearer_jwt r =
    let h = authorization r in
    if ltb (length h) 8 || not (starts_with h (codes "Bearer "))
    then ok none
    else if ltb 8192 (length (drop 7 h))
    then ok none
    else ask m.jwt_validator (drop 7 h)
authenticate m basic r = elim m.basic_validator [
  | none ↦ ok none
  | some validator ↦
      let h = authorization r in
      if starts_with h (codes "Basic ")
      then (let pair = split_first (base64_decode (drop 6 h)) b':' in validator pair.0 pair.1)
      else ok none
]
authenticate m digest r = elim m.digest_validator [
  | none ↦ ok none
  | some validator ↦
      let h = authorization r in
      if starts_with h (codes "Digest ")
      then validator (parse_kv (drop 7 h)) r.method_string
      else ok none
]
authenticate m api_key r = elim m.api_key_validator [
  | none ↦ ok none
  | some validator ↦
      let key = api_key_of m r in
      if is_empty key then ok none else if ltb 256 (length key) then ok none else validator key
]
authenticate m oauth2 r = elim m.oauth2_validator [
  | none ↦ ok none
  | some validator ↦
      let h = authorization r in
      if starts_with h (codes "Bearer ") then validator (drop 7 h) else ok none
]
authenticate m session_cookie r = elim m.session_lookup [
  | none ↦ ok none
  | some look_up ↦
      let sid = cookie m.session_cookie_name r.ctx.cookies in
      if is_empty sid then ok none else look_up sid
]

-- The loop over the schemes.
unfoldable pub try_schemes : AuthMiddleware → List AuthScheme → Request → Verdict
unfolding authenticate
try_schemes m [] r = ok none
try_schemes m (s ∷ ss) r = elim (authenticate m s r) [
  | err e ↦ err e
  | ok found ↦ elim found [ none ↦ try_schemes m ss r | some u ↦ ok (some u) ]
]

-- A text in double quotes.
abbrev pub quoted : Bytes → Bytes
quoted text = 34 ∷ text ++ 34 ∷ []

abbrev pub advertised : Bytes → AuthScheme → List Bytes
advertised realm bearer_jwt = (codes "Bearer realm=" ++ quoted realm) ∷ []
advertised realm oauth2 = (codes "Bearer realm=" ++ quoted realm) ∷ []
advertised realm basic = (codes "Basic realm=" ++ quoted realm) ∷ []
advertised realm digest = (codes "Digest realm=" ++ quoted realm) ∷ []
advertised realm api_key = codes "ApiKey" ∷ []
advertised realm session_cookie = []

abbrev pub parts : Bytes → List AuthScheme → List Bytes
parts realm [] = []
parts realm (s ∷ ss) = advertised realm s ++ parts realm ss

abbrev pub comma_joined : List Bytes → Bytes
comma_joined [] = []
comma_joined (p ∷ []) = p
comma_joined (p ∷ q ∷ ps) = p ++ (codes ", " ++ comma_joined (q ∷ ps))

abbrev pub set_www_authenticate_header : AuthMiddleware → Response → Response
set_www_authenticate_header m res =
    let ps = parts m.realm m.schemes in
    if is_empty ps then res else set_header (codes "WWW-Authenticate") (comma_joined ps) res

-- The answer 401 with a JSON body.
abbrev pub refuse : AuthMiddleware → Bytes → Exchange Request → Exchange Request
refuse m body x =
    let y = answer 401 (codes "application/json") body x in
    record y { res = set_www_authenticate_header m y.res }

abbrev pub unauthorized_body : Bytes
unauthorized_body =
    codes "{"
    ++ (quoted (codes "error") ++ (codes ":" ++ (quoted (codes "unauthorized") ++ codes "}")))

abbrev pub error_body : Bytes → Bytes
error_body what =
    codes "{"
    ++ (quoted (codes "error")
        ++ (codes ":"
            ++ (quoted (codes "auth_error")
                ++ (codes ","
                    ++ (quoted (codes "message") ++ (codes ":" ++ (quoted what ++ codes "}")))))))

-- What the loop found for the request at hand.
abbrev pub verdict : AuthMiddleware → Exchange Request → Verdict
verdict m x = try_schemes m m.schemes x.ctx

abbrev pub throws : Verdict → Bool
throws (err e) = true
throws (ok found) = false

abbrev pub accepts : Verdict → Bool
accepts (err e) = false
accepts (ok none) = false
accepts (ok (some u)) = true

-- `ctx.set<AuthUser>("auth.user", *user)`
abbrev pub store_user : Verdict → Exchange Request → Exchange Request
store_user (ok (some u)) x = record x { ctx = record x.ctx { user = some u } }
store_user v x = x

abbrev pub answer_throw : AuthMiddleware → Verdict → Exchange Request → Exchange Request
answer_throw m (err e) x = refuse m (error_body e.what) x
answer_throw m v x = x

-- `operator()`.
unfoldable pub auth_code : AuthMiddleware → Code Request
unfolding try_schemes
auth_code m =
    decide (λ x. throws (verdict m x)) (write (λ x. answer_throw m (verdict m x) x) done)
      (decide (λ x. accepts (verdict m x)) (write (λ x. store_user (verdict m x) x) (next done))
        (write (refuse m unauthorized_body) done))

unfoldable pub auth_middleware : AuthMiddleware → Middleware Request
unfolding auth_code
auth_middleware m = sync_only (codes "advanced_auth_middleware") high (auth_code m)
