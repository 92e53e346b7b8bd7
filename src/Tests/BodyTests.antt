-- ===== src/Tests/BodyTests.antt =====
-- The body parser on a form, with a JSON parser that refuses everything.
use foxhttp.Prelude.{ℕ, ◌≡◌, refl, true, false, none, [], ◌∷◌, arith, Result, err, Bytes, codes}
use foxhttp.Middleware.Code.{Exchange}
use foxhttp.Middleware.Pipeline.{Config, Run, execute_next_async_step}
use foxhttp.Middleware.Pipeline.Events.{fresh}
use foxhttp.Parser.Form.{FormConfig}
use foxhttp.Parser.PlainText.{PlainTextConfig, new_parser}
use foxhttp.Middleware.BodyParser.{Context, registered, read_body, body_parser_middleware}
use foxhttp.Middleware.BodyParser.Gate.{form_type, parsers, oversized_form_stops}

abbrev no_json : Bytes → Result Bytes ℕ
no_json text = err (codes "parse error")

abbrev small_forms : FormConfig
small_forms = record {
  max_field_size = 8;
  max_total_size = 8;
  max_fields = 2;
  support_arrays = true;
}

abbrev texts : PlainTextConfig
texts = new_parser (record {
  max_size = 8;
  normalize = true;
  trim = false;
  validate_encoding = true;
  strict_mode = false;
  allowed_content_types = [];
})

abbrev form_request : Bytes → Exchange (Context ℕ)
form_request body = record {
  ctx = record {
    content_type = form_type none;
    body = body;
    parsed_body = none;
    form = none;
    multipart = none;
  };
  res = record { status = 200; headers = []; body = [] };
}

-- The type in capitals is recognised by the middleware, but by no parser.
capitals_refused :
    read_body (registered no_json small_forms texts) (record (form_request (codes "a")).ctx {
      content_type = codes "Application/X-Www-Form-Urlencoded";
    })
    ≡ err (codes "No suitable parser supports this request")
unfolding read_body
capitals_refused = refl

abbrev only_parser : Config (Context ℕ)
only_parser = record {
  pipeline =
      body_parser_middleware (λ res. res) (parsers no_json small_forms texts) true
        (codes "BodyParserMiddleware")
      ∷ [];
  error_handler = none;
  timeout_handler = none;
  global_timeout = 0;
  statistics = false;
  has_io_context = false;
  has_callback = true;
}

abbrev oversized : Run (Context ℕ)
oversized = fresh (form_request (codes "a=1234567")) 0

oversized_form_stops_example :
    let after = execute_next_async_step only_parser 2 oversized in
    (after.invoked ≡ 0 ∷ []) × (after.finished ≡ true) × (after.exchange.res.status ≡ 400)
oversized_form_stops_example =
    oversized_form_stops no_json small_forms texts (λ res. res) only_parser
      (codes "BodyParserMiddleware") 1 oversized none refl refl refl
      (λ h. absurd (omega (arith, h.0))) (λ res. refl) refl refl
