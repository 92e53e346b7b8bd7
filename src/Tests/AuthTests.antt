-- ===== src/Tests/AuthTests.antt =====
-- Requests with and without credentials, and texts in base64.
use foxhttp.Prelude.{
  ◌<◌, ◌≡◌, refl, true, none, some, [], ◌∷◌, arith, if◌then◌else◌, ok, length, is_empty, Bytes,
  codes, same, lookup,
}
use foxhttp.Base64.{base64_decode, base64_decode_string}
use foxhttp.Base64.Laws.{base64_encode, base64_decode-base64_encode}
use foxhttp.Server.Context.{new_context, cookie}
use foxhttp.Middleware.Code.{Exchange, Middleware, sync_only, normal, done, next}
use foxhttp.Middleware.Pipeline.{Config, execute_next_async_step}
use foxhttp.Middleware.Pipeline.Events.{fresh}
use foxhttp.Middleware.Pipeline.Silent.{written, GoesOn}
use foxhttp.Middleware.Sync.{execute_next_sync}
use foxhttp.Middleware.Auth.{
  AuthUser, Request, Verdict, AuthMiddleware, new_auth, bearer_jwt, api_key, authenticate,
  try_schemes, auth_code, auth_middleware,
}
use foxhttp.Middleware.Auth.Outcome.{authenticate-bounded}
use foxhttp.Middleware.Auth.Gate.{refused_request_passes, bare_request_stops}

hello_encoded : base64_encode (codes "hello") ≡ codes "aGVsbG8="
hello_encoded = refl

base64_decode-base64_encode_example :
    (base64_decode (base64_encode (codes "hello")) ≡ codes "hello")
    × (base64_decode_string (base64_encode (codes "hello")) ≡ codes "hello")
base64_decode-base64_encode_example = base64_decode-base64_encode (codes "hello") (omega arith)

abbrev admin : AuthUser
admin = record { id = codes "admin"; roles = [] }

abbrev anyone : Bytes → Verdict
anyone token = ok (some admin)

abbrev asked : Bytes → Request
asked credentials = record {
  ctx = new_context (codes "/") none;
  header = λ name. if same name (codes "Authorization") then credentials else [];
  method_string = codes "GET";
  user = none;
}

abbrev guarding : AuthMiddleware
guarding = record (new_auth (bearer_jwt ∷ api_key ∷ [])) { jwt_validator = some anyone }

-- A validator that refuses the empty token lets the same requests in.
abbrev careful : Bytes → Verdict
careful token = if is_empty token then ok none else ok (some admin)

anyone-careful : (token : Bytes) → 0 < length token → anyone token ≡ careful token
anyone-careful [] h = elim h [ ]
anyone-careful (c ∷ token) h = refl

authenticate-bounded_example :
    (authenticate
        (record guarding { jwt_validator = some anyone })
        bearer_jwt
        (asked (codes "Bearer x"))
      ≡ authenticate
          (record guarding { jwt_validator = some careful })
          bearer_jwt
          (asked (codes "Bearer x")))
    × (authenticate
          (record guarding { api_key_validator = some anyone })
          api_key
          (asked (codes "Bearer x"))
        ≡ authenticate
            (record guarding { api_key_validator = some careful })
            api_key
            (asked (codes "Bearer x")))
authenticate-bounded_example =
    authenticate-bounded guarding (asked (codes "Bearer x")) anyone careful
      (λ token more less. anyone-careful token more) (λ key more less. anyone-careful key more)

abbrev page : Middleware Request
page = sync_only (codes "page") normal (next done)

abbrev guarded : Config Request
guarded = record {
  pipeline = auth_middleware guarding ∷ page ∷ [];
  error_handler = none;
  timeout_handler = none;
  global_timeout = 0;
  statistics = true;
  has_io_context = true;
  has_callback = true;
}

abbrev stranger : Exchange Request
stranger = record { ctx = asked []; res = record { status = 200; headers = []; body = [] } }

refused_request_passes_example :
    GoesOn guarded
      (execute_next_async_step guarded 2)
      (record (fresh stranger 7) { current_index = 1; invoked = 0 ∷ [] })
      (written (auth_code guarding) stranger)
      (execute_next_async_step guarded 3 (fresh stranger 7))
    × ((written (auth_code guarding) stranger).res.status ≡ 401)
unfolding authenticate try_schemes
refused_request_passes_example =
    refused_request_passes guarded guarding 2 (fresh stranger 7) refl refl refl refl

bare_request_stops_example :
    ((execute_next_sync guarded 3 (fresh stranger 7)).invoked ≡ 0 ∷ [])
    × ((execute_next_sync guarded 3 (fresh stranger 7)).exchange.res.status ≡ 401)
unfolding cookie new_context lookup
bare_request_stops_example =
    bare_request_stops guarded guarding 2 (fresh stranger 7) refl (refl, refl, refl) refl refl
