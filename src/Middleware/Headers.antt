-- ===== src/Middleware/Headers.antt =====
-- Middlewares that set headers: `CorsMiddleware` (src/middleware/basic/cors_middleware.cpp) and
-- `SecurityHeadersMiddleware` (include/foxhttp/middleware/advanced/security_headers_middleware.hpp).
-- What they read of the request are parameters.
use foxhttp.Prelude.{
  ℕ, suc, ◌≡◌, refl, Bool, true, false, some, [], ◌∷◌, ◌++◌, arith, if◌then◌else◌, get_elem?,
  is_empty, Bytes, codes, same, to_string,
}
use foxhttp.Middleware.Code.{
  Response, Exchange, set_header, continue, stop, Code, done, write, next, callback, decide,
  Middleware, sync_only, high,
}
use foxhttp.Middleware.Pipeline.{Config, Run, is_blocked}
use foxhttp.Middleware.Sync.{past_sync_deadline, execute_next_sync}
use foxhttp.Middleware.Sync.Laws.{silent_middleware_stops}

-- A maximal age is taken not to be negative.
pub record Cors : Type 0 where
  pub origin : Bytes
  pub methods : Bytes
  pub headers : Bytes
  pub allow_credentials : Bool
  pub max_age : ℕ

-- The arguments that the constructor takes when none are given.
abbrev pub default_cors : Cors
default_cors = record {
  origin = codes "*";
  methods = codes "GET, POST, PUT, DELETE, OPTIONS";
  headers = codes "Content-Type, Authorization";
  allow_credentials = false;
  max_age = 86400;
}

-- `header` is the lookup of a field of the request, `is_options` the test of its method.
module _ {C : Type 0} (header : Bytes → C → Bytes) (is_options : C → Bool) where
  abbrev pub allowed_origin : Cors → C → Bytes
  allowed_origin cors ctx =
      if same cors.origin (codes "*") then header (codes "Origin") ctx else cors.origin

  unfoldable pub set_cors_headers : Cors → Exchange C → Exchange C
  set_cors_headers cors x =
      let r1 = set_header (codes "Access-Control-Allow-Origin") (allowed_origin cors x.ctx) x.res in
      let r2 = set_header (codes "Access-Control-Allow-Methods") cors.methods r1 in
      let r3 = set_header (codes "Access-Control-Allow-Headers") cors.headers r2 in
      let r4 = set_header (codes "Access-Control-Max-Age") (to_string cors.max_age) r3 in
      record x {
        res =
            if cors.allow_credentials
            then set_header (codes "Access-Control-Allow-Credentials") (codes "true") r4
            else r4;
      }

  abbrev pub preflight : Exchange C → Bool
  preflight x = is_options x.ctx

  -- `res.result(status::ok); res.body() = "";`, in the three-argument operator only.
  abbrev pub answer_preflight : Exchange C → Exchange C
  answer_preflight x = record x { res = record x.res { status = 200; body = [] } }

  abbrev pub accept_preflight : Exchange C → Exchange C
  accept_preflight x = record x { res = record x.res { status = 200 } }

  unfoldable pub cors_sync : Cors → Code C
  unfolding set_cors_headers
  cors_sync cors =
      write (set_cors_headers cors) (decide preflight (write answer_preflight done) (next done))

  unfoldable pub cors_async : Cors → Code C
  unfolding set_cors_headers
  cors_async cors = write (set_cors_headers cors) (
      decide preflight (write accept_preflight (callback stop [] done))
        (next (callback continue [] done)))

  unfoldable pub cors_middleware : Cors → Middleware C
  unfolding cors_sync cors_async
  cors_middleware cors = record {
    name = codes "CorsMiddleware";
    priority = high;
    should_execute = λ _. true;
    timeout = 0;
    sync = cors_sync cors;
    async = cors_async cors;
  }

  -- In a synchronous run a preflight request is answered by the CORS middleware and reaches no
  -- middleware behind it.
  pub preflight_stops :
      (c : Config C) (cors : Cors) (fuel : ℕ) (r : Run C)
      → get_elem? c.pipeline r.current_index ≡ some (cors_middleware cors)
      → is_options r.exchange.ctx ≡ true
      → is_blocked c r ≡ false
      → past_sync_deadline c r ≡ false
      → (execute_next_sync c (suc fuel) r).invoked ≡ r.invoked ++ r.current_index ∷ []
  unfolding cors_middleware cors_sync
  preflight_stops c cors fuel r q options free early =
      silent_middleware_stops c fuel r (cors_middleware cors) q
        (λ _. tt, λ e. absurd (ground arith)) refl free early

pub record SecurityHeaders : Type 0 where
  pub hsts : Bytes
  pub csp : Bytes
  pub xfo : Bytes
  pub xcto : Bytes
  pub referrer : Bytes
  pub xss : Bytes

abbrev pub default_headers : SecurityHeaders
default_headers = record {
  hsts = [];
  csp = [];
  xfo = codes "SAMEORIGIN";
  xcto = codes "nosniff";
  referrer = codes "no-referrer";
  xss = codes "0";
}

abbrev pub set_unless_empty : Bytes → Bytes → Response → Response
set_unless_empty name value res = if is_empty value then res else set_header name value res

unfoldable pub set_security_headers : {C : Type 0} → SecurityHeaders → Exchange C → Exchange C
set_security_headers s x =
    let r1 = set_unless_empty (codes "Strict-Transport-Security") s.hsts x.res in
    let r2 = set_unless_empty (codes "Content-Security-Policy") s.csp r1 in
    let r3 = set_unless_empty (codes "X-Frame-Options") s.xfo r2 in
    let r4 = set_unless_empty (codes "X-Content-Type-Options") s.xcto r3 in
    let r5 = set_unless_empty (codes "Referrer-Policy") s.referrer r4 in
    record x { res = set_unless_empty (codes "X-XSS-Protection") s.xss r5 }

unfoldable pub security_headers_middleware : {C : Type 0} → SecurityHeaders → Middleware C
unfolding set_security_headers
security_headers_middleware s =
    sync_only (codes "SecurityHeadersMiddleware") high (next (write (set_security_headers s) done))
