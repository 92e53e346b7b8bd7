-- ===== src/Client/Request.antt =====
-- `RequestBuilder` (src/client/http_client.cpp). A call on a builder whose request was started throws
-- `std::logic_error`, and an invalid URL `std::invalid_argument`.
use foxhttp.Prelude.{
  ℕ, ◌+◌, ◌≡◌, refl, Bool, true, false, ◌||◌, none, some, Option, List, [], ◌∷◌, ◌++◌, arith,
  if◌then◌else◌, Result, ok, err, All, Bool-cases, inl, inr, ◌⊎◌, ◌∙◌, Bytes, codes,
}
use foxhttp.Client.Target.{
  ClientBaseConfig, starts_with_ci, parse_absolute_url, parse_base_only, normalize_relative_target,
}

pub data Verb : Type 0 where
  get post put delete : Verb

pub data ClientError : Type 0 where
  invalid_url consumed : ClientError

-- A handler is known by a number.
pub record RequestSpec : Type 0 where
  pub base : ClientBaseConfig
  pub method : Verb
  pub target_path : Bytes
  pub headers : List (Bytes × Bytes)
  pub body : Bytes
  pub on_success : Option ℕ
  pub on_error : Option ℕ

-- Milliseconds; 0 stands for the client's own setting.
pub record RequestTimeoutOptions : Type 0 where
  pub connection_timeout : ℕ
  pub request_timeout : ℕ
  pub handshake_timeout : ℕ

-- `started` counts the transfers that were made.
pub record RequestBuilder : Type 0 where
  pub spec : RequestSpec
  pub timeout_opts : RequestTimeoutOptions
  pub is_consumed : Bool
  pub started : ℕ

-- The constructor of a client: the configuration for its requests.
abbrev pub new_client : Bool → Bytes → Result ClientError ClientBaseConfig
new_client tls base_url = elim (parse_base_only tls base_url) [
  | none ↦ err invalid_url
  | some base ↦ ok base
]

abbrev pub builder : ClientBaseConfig → Verb → Bytes → RequestBuilder
builder base method target = record {
  spec = record {
    base = base;
    method = method;
    target_path = target;
    headers = [];
    body = [];
    on_success = none;
    on_error = none;
  };
  timeout_opts = record { connection_timeout = 0; request_timeout = 0; handshake_timeout = 0 };
  is_consumed = false;
  started = 0;
}

unfoldable pub is_absolute : Bytes → Bool
unfolding starts_with_ci
is_absolute t = starts_with_ci t (codes "http://") || starts_with_ci t (codes "https://")

unfoldable pub new_request :
    Bool → ClientBaseConfig → Verb → Bytes → Result ClientError RequestBuilder
unfolding is_absolute parse_absolute_url normalize_relative_target
new_request tls cfg method t =
    if is_absolute t
    then elim (parse_absolute_url tls t) [
      | none ↦ err invalid_url
      | some found ↦ ok (builder found.0 method found.1)
    ]
    else ok (builder cfg method (normalize_relative_target t))

-- `ensure_not_consumed`, in front of a change.
abbrev pub unless_consumed :
    (RequestBuilder → RequestBuilder) → RequestBuilder → Result ClientError RequestBuilder
unless_consumed change b = if b.is_consumed then err consumed else ok (change b)

unfoldable pub header : Bytes → Bytes → RequestBuilder → Result ClientError RequestBuilder
header name value =
    unless_consumed
      λ b. record b { spec = record b.spec { headers = b.spec.headers ++ (name, value) ∷ [] } }

unfoldable pub body : Bytes → RequestBuilder → Result ClientError RequestBuilder
body text = unless_consumed λ b. record b { spec = record b.spec { body = text } }

-- The text that `nlohmann::json::dump` gives.
unfoldable pub body_json : Bytes → RequestBuilder → Result ClientError RequestBuilder
body_json text = unless_consumed λ b. record b {
  spec = record b.spec {
    headers = b.spec.headers ++ (codes "Content-Type", codes "application/json") ∷ [];
    body = text;
  };
}

unfoldable pub timeout : RequestTimeoutOptions → RequestBuilder → Result ClientError RequestBuilder
timeout opts = unless_consumed λ b. record b { timeout_opts = opts }

unfoldable pub connection_timeout : ℕ → RequestBuilder → Result ClientError RequestBuilder
connection_timeout time =
    unless_consumed
      λ b. record b { timeout_opts = record b.timeout_opts { connection_timeout = time } }

unfoldable pub request_timeout : ℕ → RequestBuilder → Result ClientError RequestBuilder
request_timeout time =
    unless_consumed
      λ b. record b { timeout_opts = record b.timeout_opts { request_timeout = time } }

unfoldable pub catch_error : ℕ → RequestBuilder → Result ClientError RequestBuilder
catch_error fn = unless_consumed λ b. record b { spec = record b.spec { on_error = some fn } }

-- `then`, whose transfer runs at once.
unfoldable pub then_call : ℕ → RequestBuilder → Result ClientError RequestBuilder
then_call fn = unless_consumed λ b. record b {
  spec = record b.spec { on_success = some fn };
  is_consumed = true;
  started = b.started + 1;
}

-- The coroutine that this returns makes the transfer when it is awaited.
unfoldable pub as_awaitable : RequestBuilder → Result ClientError RequestBuilder
as_awaitable = unless_consumed λ b. record b { is_consumed = true; started = b.started + 1 }

-- The calls on one builder; an exception leaves it as it was.
pub data Call : Type 0 where
  sets_header : Bytes → Bytes → Call
  sets_body sets_json : Bytes → Call
  sets_timeout : RequestTimeoutOptions → Call
  sets_connection_timeout sets_request_timeout : ℕ → Call
  catches starts : ℕ → Call
  awaits : Call

abbrev pub call : Call → RequestBuilder → Result ClientError RequestBuilder
call (sets_header name value) b = header name value b
call (sets_body text) b = body text b
call (sets_json text) b = body_json text b
call (sets_timeout opts) b = timeout opts b
call (sets_connection_timeout time) b = connection_timeout time b
call (sets_request_timeout time) b = request_timeout time b
call (catches fn) b = catch_error fn b
call (starts fn) b = then_call fn b
call awaits b = as_awaitable b

abbrev pub kept : RequestBuilder → Result ClientError RequestBuilder → RequestBuilder
kept b (ok c) = c
kept b (err e) = b

unfoldable pub run_calls : List Call → RequestBuilder → RequestBuilder
run_calls [] b = b
run_calls (c ∷ cs) b = run_calls cs (kept b (call c b))

-- A builder is consumed exactly once its transfer was made.
record Inv (b : RequestBuilder) : Type 0 where
  counted : b.started ≡ (if b.is_consumed then 1 else 0)

call-Inv : (c : Call) (b : RequestBuilder) → Inv b → Inv (kept b (call c b))
unfolding header body body_json timeout connection_timeout request_timeout catch_error then_call
    as_awaitable
call-Inv (sets_header name value) b v = ground arith
call-Inv (sets_body text) b v = ground arith
call-Inv (sets_json text) b v = ground arith
call-Inv (sets_timeout opts) b v = ground arith
call-Inv (sets_connection_timeout time) b v = ground arith
call-Inv (sets_request_timeout time) b v = ground arith
call-Inv (catches fn) b v = ground arith
call-Inv (starts fn) b v = ground arith
call-Inv awaits b v = ground arith

run_calls-Inv : (cs : List Call) (b : RequestBuilder) → Inv b → Inv (run_calls cs b)
unfolding run_calls
run_calls-Inv [] b v = v
run_calls-Inv (c ∷ cs) b v = run_calls-Inv cs (kept b (call c b)) (call-Inv c b v)

-- Once started, a builder is frozen.
frozen : (c : Call) (b : RequestBuilder) → b.is_consumed ≡ true → call c b ≡ err consumed
unfolding header body body_json timeout connection_timeout request_timeout catch_error then_call
    as_awaitable
frozen (sets_header name value) b e = rw (header, e)
frozen (sets_body text) b e = rw (body, e)
frozen (sets_json text) b e = rw (body_json, e)
frozen (sets_timeout opts) b e = rw (timeout, e)
frozen (sets_connection_timeout time) b e = rw (connection_timeout, e)
frozen (sets_request_timeout time) b e = rw (request_timeout, e)
frozen (catches fn) b e = rw (catch_error, e)
frozen (starts fn) b e = rw (then_call, e)
frozen awaits b e = rw (as_awaitable, e)

run_calls-frozen : (cs : List Call) (b : RequestBuilder) → b.is_consumed ≡ true → run_calls cs b ≡ b
unfolding run_calls
run_calls-frozen [] b e = refl
run_calls-frozen (c ∷ cs) b e = rw (run_calls, frozen c b e) (run_calls-frozen cs b e)

calls_refused :
    (ds : List Call) (b : RequestBuilder)
    → b.is_consumed ≡ true
    → All (λ d. call d b ≡ err consumed) ds
calls_refused [] b e = tt
calls_refused (d ∷ ds) b e = (frozen d b e, calls_refused ds b e)

-- No transfer was made, or one was and the builder is frozen.
abbrev pub SentAtMostOnce : RequestBuilder → List Call → Type 0
SentAtMostOnce b ds =
    ((b.is_consumed ≡ false) × (b.started ≡ 0))
    ⊎ ((b.is_consumed ≡ true)
        × (b.started ≡ 1)
        × All (λ d. call d b ≡ err consumed) ds
        × (run_calls ds b ≡ b))

-- Whatever of its operations is called on a new builder, either no transfer was made for its request,
-- by a callback or as an awaitable, or exactly one was, and then whatever is called behind that throws
-- and changes nothing: header, body, timeouts and handlers are those it was started with.
pub sent_once :
    (base : ClientBaseConfig) (method : Verb) (target : Bytes) (cs ds : List Call)
    → SentAtMostOnce (run_calls cs (builder base method target)) ds
sent_once base method target cs ds =
    let b = run_calls cs (builder base method target) in
    let v = run_calls-Inv cs (builder base method target) (record { counted = refl }) in
    elim (Bool-cases b.is_consumed) [
      | inl e ↦
          let n : b.started ≡ 1 = v.counted ∙ rw e in
          inr (e, n, calls_refused ds b e, run_calls-frozen ds b e)
      | inr e ↦ inl (e, v.counted ∙ rw e)
    ]
