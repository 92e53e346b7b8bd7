-- ===== src/Middleware/BodyParser/Gate.antt =====
-- A form in front of the body parser: what it stores, and what it stops.
use foxhttp.Prelude.{
  ℕ, suc, ◌≤◌, ◌≡◌, refl, sym, ap, ◌∙◌, subst, ◌⊎◌, inl, inr, Bool, true, false, Option, none, some,
  [], ◌∷◌, ◌++◌, arith, Result, ok, err, Result-cases, length, get_elem?, is_empty, All, Bytes,
  codes, getlines,
}
use foxhttp.Middleware.Code.{
  Response, Exchange, continue, stop, Code, done, write, next, callback, decide,
}
use foxhttp.Middleware.Pipeline.{
  Config, Run, is_blocked, past_deadline, count_execution, reset_middleware_timer,
  complete_async_run, run_code, call_middleware, execute_next_async_step,
}
use foxhttp.Parser.Form
use foxhttp.Parser.Form.{FormConfig, FormField}
use foxhttp.Parser.Form.Errors.{Fits, parse_ok_iff}
use foxhttp.Parser.PlainText.{PlainTextConfig}
use foxhttp.Middleware.BodyParser.{
  Context, Registry, FormData, registered, store, read_body, handle_body, bad_request, stops,
  handled, body_parser_middleware,
}

-- The content type of a form, with or without parameters.
abbrev pub form_type : Option Bytes → Bytes
form_type none = codes "application/x-www-form-urlencoded"
form_type (some params) = codes "application/x-www-form-urlencoded" ++ b';' ∷ params

module _ {J : Type 0} (json_parse : Bytes → Result Bytes J) (fc : FormConfig)
    (tc : PlainTextConfig) where
  abbrev pub parsers : Registry J
  parsers = registered json_parse fc tc

  abbrev stored_form : Context J → Result Bytes FormData → Result Bytes (Context J)
  stored_form ctx (err what) = err what
  stored_form ctx (ok fields) = ok (record ctx { form = some fields })

  abbrev as_stored : Result Bytes FormData → Result Bytes (Option FormData)
  as_stored (err what) = err what
  as_stored (ok t) = ok (some t)

  stored_either :
      (ctx : Context J) (r : Result Bytes FormData)
      → store (λ f c. record c { form = some f }) ctx (as_stored r) ≡ stored_form ctx r
  stored_either ctx (err what) = refl
  stored_either ctx (ok t) = refl

  read_typed :
      (ctx : Context J) (params : Option Bytes)
      → (let typed = record ctx { content_type = form_type params } in
          read_body parsers typed
          ≡ store (λ f c. record c { form = some f }) typed (as_stored (Form.parse fc ctx.body)))
  unfolding read_body
  read_typed ctx none = refl
  read_typed ctx (some params) = refl

  read_form :
      (ctx : Context J) (params : Option Bytes)
      → ctx.content_type ≡ form_type params
      → read_body parsers ctx ≡ stored_form ctx (Form.parse fc ctx.body)
  read_form ctx params e =
      subst
        (λ t.
          let typed = record ctx { content_type = t } in
          read_body parsers typed ≡ stored_form typed (Form.parse fc ctx.body))
        (sym e)
        (read_typed ctx params
          ∙ stored_either (record ctx { content_type = form_type params }) (Form.parse fc ctx.body))

  is_empty-form_type : (params : Option Bytes) → is_empty (form_type params) ≡ false
  is_empty-form_type none = refl
  is_empty-form_type (some params) = refl

  module _ (prepare_payload : Response → Response) where
    abbrev run_handler : Exchange (Context J) → Bool × Exchange (Context J)
    run_handler = handle_body prepare_payload parsers true

    handled_ok :
        (x : Exchange (Context J)) (ctx : Context J)
        → is_empty x.ctx.body ≡ false
        → is_empty x.ctx.content_type ≡ false
        → read_body parsers x.ctx ≡ ok ctx
        → run_handler x ≡ (false, record x { ctx = ctx })
    unfolding handle_body
    handled_ok x ctx a b q = rw (handle_body, a, b, q) refl

    handled_err :
        (x : Exchange (Context J)) (what : Bytes)
        → is_empty x.ctx.body ≡ false
        → is_empty x.ctx.content_type ≡ false
        → read_body parsers x.ctx ≡ err what
        → run_handler x ≡ (true, bad_request prepare_payload parsers true what x)
    unfolding handle_body
    handled_err x what a b q = rw (handle_body, a, b, q) refl

    -- A form is stored, or answered 400 with the parser's message.
    abbrev pub FormHandled : Exchange (Context J) → Type 0
    FormHandled x =
        ((fields : FormData) × (Form.parse fc x.ctx.body ≡ ok fields)
          × (run_handler x ≡ (false, record x { ctx = record x.ctx { form = some fields } })))
        ⊎ ((what : Bytes) × (Form.parse fc x.ctx.body ≡ err what)
            × (run_handler x ≡ (true, bad_request prepare_payload parsers true what x)))

    -- A request with a form and a body: if the form parser reads the body, its fields are stored and the
    -- pipeline goes on; if not, the answer is 400 with the parser's message and the pipeline stops.
    pub handle_body-form :
        (x : Exchange (Context J)) (params : Option Bytes)
        → x.ctx.content_type ≡ form_type params
        → is_empty x.ctx.body ≡ false
        → FormHandled x
    handle_body-form x params e full =
        let typed : is_empty x.ctx.content_type ≡ false =
          ap is_empty e ∙ is_empty-form_type params in
        elim (Result-cases (Form.parse fc x.ctx.body)) [
          | inl (fields, q) ↦
              let read = read_form x.ctx params e ∙ ap (stored_form x.ctx) q in
              inl (fields, q, handled_ok x _ full typed read)
          | inr (what, q) ↦
              let read = read_form x.ctx params e ∙ ap (stored_form x.ctx) q in
              inr (what, q, handled_err x what full typed read)
        ]

    refused_form :
        (x : Exchange (Context J)) (params : Option Bytes)
        → x.ctx.content_type ≡ form_type params
        → is_empty x.ctx.body ≡ false
        → ¬ ((length x.ctx.body ≤ fc.max_total_size) × All (Fits fc) (getlines b'&' x.ctx.body))
        → (what : Bytes) × (run_handler x ≡ (true, bad_request prepare_payload parsers true what x))
    refused_form x params e full large = elim (handle_body-form x params e full) [
      | inl (fields, p, h) ↦ absurd (large ((parse_ok_iff fc x.ctx.body).0 (fields, p)))
      | inr (what, p, h) ↦ (what, h)
    ]

    module _ (c : Config (Context J)) where
      abbrev completed_run : Run (Context J) → ℕ → Exchange (Context J) → Run (Context J)
      completed_run r i x =
          complete_async_run c stop []
            (count_execution c i stop (reset_middleware_timer c (record r { exchange = x })))

      completed :
          (r : Run (Context J)) (i : ℕ) (x : Exchange (Context J))
          → ((completed_run r i x).invoked ≡ r.invoked)
            × ((completed_run r i x).finished ≡ true)
            × ((completed_run r i x).exchange ≡ x)
      unfolding complete_async_run
      completed r i x = (ground arith, ground arith, ground arith)

      stopped_code :
          (again : Run (Context J) → Run (Context J)) (i : ℕ) (r : Run (Context J))
          (on : Code (Context J))
          → stops prepare_payload parsers true r.exchange ≡ true
          → run_code c again i
              (decide
                (stops prepare_payload parsers true)
                (write (handled prepare_payload parsers true) (callback stop [] done))
                on)
              r
            ≡ complete_async_run c stop [] (
                count_execution c i stop (
                  reset_middleware_timer c
                    (record r { exchange = handled prepare_payload parsers true r.exchange })))
      unfolding run_code
      stopped_code again i r on e = rw (run_code, e, run_code) refl

      -- A form whose body is longer than the limit, or in which a name or a value is, ends an asynchronous
      -- run: the body parser is the last middleware that is called, the run is finished, and the answer
      -- is 400. `prepare_payload` is assumed to keep the status.
      pub oversized_form_stops :
          (name : Bytes) (fuel : ℕ) (r : Run (Context J)) (params : Option Bytes)
          → get_elem? c.pipeline r.current_index
            ≡ some (body_parser_middleware prepare_payload parsers true name)
          → r.exchange.ctx.content_type ≡ form_type params
          → is_empty r.exchange.ctx.body ≡ false
          → ¬ (
              (length r.exchange.ctx.body ≤ fc.max_total_size)
              × All (Fits fc) (getlines b'&' r.exchange.ctx.body))
          → ((res : Response) → (prepare_payload res).status ≡ res.status)
          → is_blocked c r ≡ false
          → past_deadline c r ≡ false
          → (let after = execute_next_async_step c (suc fuel) r in
              (after.invoked ≡ r.invoked ++ r.current_index ∷ [])
              × (after.finished ≡ true)
              × (after.exchange.res.status ≡ 400))
      unfolding execute_next_async_step call_middleware body_parser_middleware
      oversized_form_stops name fuel r params q e full large keeps free early =
          let x = r.exchange in
          let i = r.current_index in
          let called : Run (Context J) = record r {
            current_index = suc i;
            invoked = r.invoked ++ i ∷ [];
          } in
          let again = execute_next_async_step c fuel in
          let (what, refused) = refused_form x params e full large in
          let stopped : stops prepare_payload parsers true x ≡ true = ap (λ p. p.0) refused in
          let answered : (handled prepare_payload parsers true x).res.status ≡ 400 =
            ap (λ p. p.1.res.status) refused ∙ keeps _ in
          let after : execute_next_async_step c (suc fuel) r
              ≡ completed_run called i (handled prepare_payload parsers true x) =
            rw (free, q, early)
              (stopped_code again i called
                (write (handled prepare_payload parsers true) (next (callback continue [] done)))
                stopped) in
          let ended = completed called i (handled prepare_payload parsers true x) in
          (
            ap (λ a. a.invoked) after ∙ ended.0,
            ap (λ a. a.finished) after ∙ ended.1,
            ap (λ a. a.exchange.res.status) after ∙ (ap (λ y. y.res.status) ended.2 ∙ answered),
          )
