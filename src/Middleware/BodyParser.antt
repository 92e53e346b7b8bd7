-- ===== src/Middleware/BodyParser.antt =====
-- `BodyParserMiddleware` (src/middleware/basic/body_parser_middleware.cpp) with the registry of
-- parsers (include/foxhttp/parser/parser.hpp). The JSON values, the JSON parser's `parse` and
-- `prepare_payload` are parameters.
pub mod Gate
use foxhttp.Prelude.{
  ℕ, zero, suc, ◌+◌, ◌-◌, ◌*◌, ◌/◌, ◌%◌, ◌^◌, ◌≤◌, ◌<◌, ◌≡◌, refl, sym, ap, ◌∙◌, subst, ◌≢◌, ◌↔◌,
  ◌⊎◌, inl, inr, Bool, true, false, ◌&&◌, ◌||◌, not, Option, none, some, List, [], ◌∷◌, ◌++◌, map,
  append-nil, append_assoc, arith, ltb, leb, ◌==◌, if◌then◌else◌, ltb→lt, lt→ltb, leb→le, le→leb,
  ==_iff, ==_refl, ne→==, tests, Bool-cases, Option-cases, Result, ok, err, Result-cases, length,
  get_elem?, take, drop, is_empty, keep, length-append, take-append-drop, length-drop,
  take-length-append, drop-length-append, drop-add, drop-past, All, All-append, Bytes, codes, same,
  find, has, starts_with, Lacks, same_iff, same_refl, find-append, find-eq-none, find-lt-length,
  find-Lacks, find_split, drop_at, lookup, insert, lookup-insert, is_empty_of_lookup, lookup-nil,
  getlines, begin_line, has_suffix, is_space, is_alnum, hex_value, hex_digit, stream_hex, stoi_hex,
  hex_value-hex_digit, getlines-append, getlines-one, between, join, IsLine, getlines-join,
  drop_behind, is_empty-append, ne_of_same, find_text, trim_front_by, trim_back_by, to_string,
}
use foxhttp.Middleware.Code.{
  Response, Exchange, answer, continue, stop, Code, done, write, next, callback, decide, Middleware,
  normal,
}
use foxhttp.Parser.Form
use foxhttp.Parser.Form.{FormConfig, FormField}
use foxhttp.Parser.PlainText
use foxhttp.Parser.PlainText.{PlainTextConfig}
use foxhttp.Parser.Multipart.{to_lower}
use foxhttp.Parser.Field.{MultipartField}
use foxhttp.Parser.Field

-- `Parser<T>`: both functions take the header Content-Type, the second also the body.
pub record Parser (T : Type 0) : Type 0 where
  pub supports : Bytes → Bool
  pub parse : Bytes → Bytes → Result Bytes T

-- The registered parsers of one type; `none` if the type has none.
abbrev pub first_supporting : {T : Type 0} → List (Parser T) → Bytes → Result Bytes (Parser T)
first_supporting [] content_type = err (codes "No suitable parser supports this request")
first_supporting (p ∷ ps) content_type =
    let rest = first_supporting ps content_type in if p.supports content_type then ok p else rest

abbrev pub get_best : {T : Type 0} → Option (List (Parser T)) → Bytes → Result Bytes (Parser T)
get_best none content_type = err (codes "No parser registered for this type")
get_best (some ps) content_type = first_supporting ps content_type

abbrev pub FormData : Type 0
FormData = List (Bytes × FormField)

abbrev pub MultipartData : Type 0
MultipartData = List MultipartField

pub data ParsedBody (J : Type 0) : Type 0 where
  json : J → ParsedBody J
  text : Bytes → ParsedBody J

-- What the middleware reads and writes of the request context.
pub record Context (J : Type 0) : Type 0 where
  pub content_type : Bytes
  pub body : Bytes
  pub parsed_body : Option (ParsedBody J)
  pub form : Option FormData
  pub multipart : Option MultipartData

pub record Registry (J : Type 0) : Type 0 where
  pub json_parsers : Option (List (Parser J))
  pub form_parsers : Option (List (Parser FormData))
  pub multipart_parsers : Option (List (Parser MultipartData))
  pub text_parsers : Option (List (Parser Bytes))

abbrev pub json_supports : Bytes → Bool
json_supports content_type =
    same content_type (codes "application/json")
    || starts_with content_type (codes "application/json;")

-- One parser of each type, as the headers register them.
abbrev pub registered :
    {J : Type 0} → (Bytes → Result Bytes J) → FormConfig → PlainTextConfig → Registry J
registered json_parse form_config text_config = record {
  json_parsers = some (record { supports = json_supports; parse = λ _. json_parse } ∷ []);
  form_parsers =
      some (record { supports = Form.supports; parse = λ _. Form.parse form_config } ∷ []);
  multipart_parsers = some (record { supports = Field.supports; parse = Field.parse } ∷ []);
  text_parsers = some (
      record { supports = PlainText.supports text_config; parse = PlainText.parse text_config }
      ∷ []);
}

abbrev pub content_type_base : Bytes → Bytes
content_type_base raw =
    let s : Bytes = elim (find b';' raw) [ none ↦ raw | some pos ↦ take pos raw ] in
    to_lower (trim_back_by is_space (trim_front_by is_space s))

-- `p->supports` is asked once more before `parse`.
abbrev pub parse_with :
    {T : Type 0} → Option (List (Parser T)) → Bytes → Bytes → Result Bytes (Option T)
parse_with parsers content_type body = elim (get_best parsers content_type) [
  | err what ↦ err what
  | ok p ↦
      if p.supports content_type
      then elim (p.parse content_type body) [ err what ↦ err what | ok t ↦ ok (some t) ]
      else ok none
]

module _ {J : Type 0} where
  abbrev pub store :
      {T : Type 0}
      → (T → Context J → Context J)
      → Context J
      → Result Bytes (Option T)
      → Result Bytes (Context J)
  store set ctx (err what) = err what
  store set ctx (ok none) = ok ctx
  store set ctx (ok (some t)) = ok (set t ctx)

  -- The `try` block; an error is an exception.
  unfoldable pub read_body : Registry J → Context J → Result Bytes (Context J)
  read_body registry ctx =
      let base = content_type_base ctx.content_type in
      if same base (codes "application/json")
      then store (λ j c. record c { parsed_body = some (json j) }) ctx
          (parse_with registry.json_parsers ctx.content_type ctx.body)
      else if same base (codes "application/x-www-form-urlencoded")
      then store (λ f c. record c { form = some f }) ctx
          (parse_with registry.form_parsers ctx.content_type ctx.body)
      else if starts_with base (codes "multipart/")
      then store (λ m c. record c { multipart = some m }) ctx
          (parse_with registry.multipart_parsers ctx.content_type ctx.body)
      else if starts_with base (codes "text/")
      then store (λ t c. record c { parsed_body = some (text t) }) ctx
          (parse_with registry.text_parsers ctx.content_type ctx.body)
      else ok ctx

  module _ (prepare_payload : Response → Response) (registry : Registry J)
      (bad_request_on_error : Bool) where
    abbrev pub bad_request : Bytes → Exchange (Context J) → Exchange (Context J)
    bad_request what x =
        let answered = answer 400 (codes "text/plain; charset=utf-8") what x in
        record answered { res = prepare_payload answered.res }

    -- Whether the pipeline is to stop, and what was written.
    unfoldable pub handle_body : Exchange (Context J) → Bool × Exchange (Context J)
    unfolding read_body
    handle_body x =
        if is_empty x.ctx.body || is_empty x.ctx.content_type
        then (false, x)
        else elim (read_body registry x.ctx) [
          | ok ctx ↦ (false, record x { ctx = ctx })
          | err what ↦ if bad_request_on_error then (true, bad_request what x) else (false, x)
        ]

    abbrev pub stops : Exchange (Context J) → Bool
    stops x = (handle_body x).0

    abbrev pub handled : Exchange (Context J) → Exchange (Context J)
    handled x = (handle_body x).1

    unfoldable pub body_parser_middleware : Bytes → Middleware (Context J)
    unfolding handle_body
    body_parser_middleware name = record {
      name = name;
      priority = normal;
      should_execute = λ _. true;
      timeout = 0;
      sync = decide stops (write handled done) (write handled (next done));
      async =
          decide stops (write handled (callback stop [] done))
            (write handled (next (callback continue [] done)));
    }
