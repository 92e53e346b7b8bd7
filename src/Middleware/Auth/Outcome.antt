-- ===== src/Middleware/Auth/Outcome.antt =====
-- What the schemes find in a request.
use foxhttp.Prelude.{
  ◌≤◌, ◌<◌, ◌≡◌, refl, inl, inr, none, some, List, [], ◌∷◌, arith, Option-cases, ok, length, drop,
  length-drop, Bytes,
}
use foxhttp.Server.Context.{cookie}
use foxhttp.Middleware.Auth.{
  AuthScheme, bearer_jwt, basic, digest, api_key, oauth2, session_cookie, Request, Verdict,
  AuthMiddleware, authorization, api_key_of, authenticate, try_schemes,
}

-- No credentials that any scheme looks at.
abbrev pub IsBare : AuthMiddleware → Request → Type 0
IsBare m r =
    (authorization r ≡ [])
    × (api_key_of m r ≡ [])
    × (cookie m.session_cookie_name r.ctx.cookies ≡ [])

authenticate-bare :
    (m : AuthMiddleware) (s : AuthScheme) (r : Request) → IsBare m r → authenticate m s r ≡ ok none
unfolding authenticate
authenticate-bare m bearer_jwt r h = rw h.0
authenticate-bare m basic r h = elim (Option-cases m.basic_validator) [
  | inl e ↦ rw e
  | inr (v, e) ↦ rw (e, h.0)
]
authenticate-bare m digest r h = elim (Option-cases m.digest_validator) [
  | inl e ↦ rw e
  | inr (v, e) ↦ rw (e, h.0)
]
authenticate-bare m api_key r h = elim (Option-cases m.api_key_validator) [
  | inl e ↦ rw e
  | inr (v, e) ↦ rw (e, h.1)
]
authenticate-bare m oauth2 r h = elim (Option-cases m.oauth2_validator) [
  | inl e ↦ rw e
  | inr (v, e) ↦ rw (e, h.0)
]
authenticate-bare m session_cookie r h = elim (Option-cases m.session_lookup) [
  | inl e ↦ rw e
  | inr (v, e) ↦ rw (e, h.2)
]

pub try_schemes-bare :
    (m : AuthMiddleware) (ss : List AuthScheme) (r : Request)
    → IsBare m r
    → try_schemes m ss r ≡ ok none
unfolding try_schemes
try_schemes-bare m [] r h = refl
try_schemes-bare m (s ∷ ss) r h =
    rw (try_schemes, authenticate-bare m s r h) (try_schemes-bare m ss r h)

-- What a JWT validator and an API key validator say of longer tokens and keys, and of empty ones,
-- does not matter: they are never shown more than 8192 and 256 bytes.
pub authenticate-bounded :
    (m : AuthMiddleware) (r : Request) (v w : Bytes → Verdict)
    → ((token : Bytes) → 0 < length token → length token ≤ 8192 → v token ≡ w token)
    → ((key : Bytes) → 0 < length key → length key ≤ 256 → v key ≡ w key)
    → (authenticate (record m { jwt_validator = some v }) bearer_jwt r
        ≡ authenticate (record m { jwt_validator = some w }) bearer_jwt r)
      × (authenticate (record m { api_key_validator = some v }) api_key r
          ≡ authenticate (record m { api_key_validator = some w }) api_key r)
unfolding authenticate
authenticate-bounded m r v w ht hk =
    let h = authorization r in
    let key = api_key_of m r in
    (ground (arith, length-drop 7 h, ht (drop 7 h)), ground (arith, hk key))
