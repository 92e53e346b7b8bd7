-- ===== src/Middleware/Pipeline.antt =====
-- A run of the pipeline: src/middleware/middleware_chain.cpp, the state that
-- `PipelineExecutionState` keeps and the functions that drive it. The run also lists the indices of
-- the middlewares it called and the results it handed to the completion callback.
mod State
pub mod Events
pub mod Once
pub mod Live
pub mod Silent
unfoldable pub use State.*
use foxhttp.Prelude.{
  ℕ, zero, suc, ◌+◌, ◌-◌, ◌*◌, ◌/◌, ◌%◌, ◌^◌, ◌≤◌, ◌<◌, ◌≡◌, refl, sym, ap, ◌∙◌, subst, ◌≢◌, ◌↔◌,
  ◌⊎◌, inl, inr, Bool, true, false, ◌&&◌, ◌||◌, not, Option, none, some, List, [], ◌∷◌, ◌++◌, map,
  append-nil, append_assoc, arith, ltb, leb, ◌==◌, if◌then◌else◌, ltb→lt, lt→ltb, leb→le, le→leb,
  ==_iff, ==_refl, ne→==, tests, Bool-cases, Option-cases, Result, ok, err, Result-cases, length,
  get_elem?, take, drop, is_empty, keep, length-append, take-append-drop, length-drop,
  take-length-append, drop-length-append, drop-add, drop-past, All, All-append, Bytes, codes, same,
  find, has, starts_with, Lacks, same_iff, same_refl, find-append, find-eq-none, find-lt-length,
  find-Lacks, find_split, drop_at, lookup, insert, lookup-insert, is_empty_of_lookup, lookup-nil,
  to_string,
}
use foxhttp.Middleware.Code.{
  Exchange, answer, MiddlewareResult, continue, stop, error, timeout, Exception, Code, done, throw,
  write, wait, next, callback, decide, Middleware,
}

module _ {C : Type 0} (c : Config C) where
  abbrev pub count_execution : ℕ → MiddlewareResult → Run C → Run C
  count_execution i result r =
      if c.statistics
      then record r {
        stats = bump r.stats i (λ s. record {
          execution_count = s.execution_count + 1;
          error_count = elim result [ error ↦ s.error_count + 1 | _ ↦ s.error_count ];
          timeout_count = elim result [ timeout ↦ s.timeout_count + 1 | _ ↦ s.timeout_count ];
        });
      }
      else r

  abbrev pub count_error : ℕ → Run C → Run C
  count_error i r =
      if c.statistics
      then record r { stats = bump r.stats i (λ s. record s { error_count = s.error_count + 1 }) }
      else r

  abbrev pub count_timeout : ℕ → Run C → Run C
  count_timeout i r =
      if c.statistics
      then record r {
        stats = bump r.stats i (λ s. record s { timeout_count = s.timeout_count + 1 });
      }
      else r

  -- `try_finish_run`: only the first call finishes the run.
  unfoldable pub try_finish_run : Run C → Run C × Bool
  try_finish_run r = if r.finished then (r, false) else (
    record r {
      finished = true;
      global_timer = cancel_timer r.global_timer;
      middleware_timer = cancel_timer r.middleware_timer;
      registered = false;
    },
    true,
  )

  unfoldable pub complete_async_run : MiddlewareResult → Bytes → Run C → Run C
  unfolding try_finish_run
  complete_async_run result message r =
      let (r', first) = try_finish_run r in
      if first
      then if c.has_callback
        then record r' { completions = r'.completions ++ (result, message) ∷ [] }
        else r'
      else r'

  unfoldable pub write_timeout : Run C → Run C
  write_timeout r = elim c.timeout_handler [
    | some th ↦ record r { exchange = th r.exchange }
    | none ↦ record r { exchange = answer_timeout r.exchange }
  ]

  unfoldable pub handle_timeout_run : Run C → Run C
  unfolding write_timeout complete_async_run
  handle_timeout_run r = complete_async_run timeout (codes "Request timeout") (write_timeout r)

  -- `core::ErrorCode::ServerInternalError`, unless the exception carries its own code.
  abbrev pub error_code : Exception → ℕ
  error_code e = elim e.code [ some code ↦ code | none ↦ 5000 ]

  abbrev pub quote : Bytes
  quote = 34 ∷ []

  abbrev pub async_error_body : Exception → Bytes
  async_error_body e =
      (codes "{" ++ (quote ++ (codes "error" ++ (quote ++ (codes ": " ++ quote)))))
      ++ (e.what
          ++ ((quote ++ (codes ", " ++ (quote ++ (codes "code" ++ (quote ++ codes ": ")))))
              ++ (to_string (error_code e) ++ codes "}")))

  unfoldable pub write_error : Exception → Run C → Run C
  write_error e r = elim c.error_handler [
    | some eh ↦ record r { exchange = eh e r.exchange }
    | none ↦ record r {
      exchange = answer 500 (codes "application/json") (async_error_body e) r.exchange;
    }
  ]

  unfoldable pub handle_error_run : Exception → Run C → Run C
  unfolding write_error complete_async_run
  handle_error_run e r = complete_async_run error e.what (write_error e r)

  -- `again` is `execute_next_async_step`.
  unfoldable pub handle_middleware_result_run :
      (Run C → Run C) → MiddlewareResult → Bytes → Run C → Run C
  unfolding complete_async_run
  handle_middleware_result_run again continue message r = again r
  handle_middleware_result_run again stop message r = complete_async_run stop [] r
  handle_middleware_result_run again error message r = complete_async_run error message r
  handle_middleware_result_run again timeout message r = complete_async_run timeout message r

  -- The middleware's timer is cancelled and its pointer reset.
  abbrev pub reset_middleware_timer : Run C → Run C
  reset_middleware_timer r = record r { middleware_timer = unset }

  -- The completion callback that middleware `i` is given.
  unfoldable pub async_callback : (Run C → Run C) → ℕ → MiddlewareResult → Bytes → Run C → Run C
  unfolding handle_middleware_result_run
  async_callback again i result message r =
      handle_middleware_result_run again result message
        (count_execution i result (reset_middleware_timer r))

  unfoldable pub setup_middleware_timeout : ℕ → Run C → Run C
  setup_middleware_timeout i r = record r { middleware_timer = pending; timer_owner = i }

  -- `(*mw)(ctx, res, next, async_callback)` within its `try`.
  unfoldable pub run_code : (Run C → Run C) → ℕ → Code C → Run C → Run C
  unfolding handle_error_run async_callback
  run_code again i done r = r
  run_code again i (throw e) r = handle_error_run e (count_error i r)
  run_code again i (write f k) r = run_code again i k (record r { exchange = f r.exchange })
  run_code again i (wait d k) r = run_code again i k (record r { now = r.now + d })
  run_code again i (next k) r = run_code again i k (again (reset_middleware_timer r))
  run_code again i (callback result message k) r =
      run_code again i k (async_callback again i result message r)
  run_code again i (decide test a b) r = elim (test r.exchange) [
    | true ↦ run_code again i a r
    | false ↦ run_code again i b r
  ]

  -- The result of a run that ends without a middleware's word.
  abbrev pub final_result : Run C → MiddlewareResult
  final_result r = if r.cancelled then stop else if r.timed_out then timeout else continue

  abbrev pub past_deadline : Run C → Bool
  past_deadline r =
      ltb 0 c.global_timeout
      && (is_unset r.global_timer && ltb c.global_timeout (r.now - r.execution_start))

  abbrev pub is_blocked : Run C → Bool
  is_blocked r = r.cancelled || (r.timed_out || r.paused)

  -- Middleware `i` is called, or passed over by its condition.
  unfoldable pub call_middleware : (Run C → Run C) → ℕ → Middleware C → Run C → Run C
  unfolding setup_middleware_timeout run_code
  call_middleware again i mw r =
      let passed_over = again r in
      let called = run_code again i mw.async (
        if ltb 0 mw.timeout && c.has_io_context
        then setup_middleware_timeout i (record r { invoked = r.invoked ++ i ∷ [] })
        else record r { invoked = r.invoked ++ i ∷ [] }) in
      if mw.should_execute r.exchange then called else passed_over

  -- Fuel bounds the middlewares left: each round moves `current_index` on.
  unfoldable pub execute_next_async_step : ℕ → Run C → Run C
  unfolding complete_async_run handle_timeout_run call_middleware
  execute_next_async_step zero r = r
  execute_next_async_step (suc fuel) r =
      let again = execute_next_async_step fuel in
      let ended = complete_async_run (final_result r) [] r in
      if is_blocked r then ended else elim (get_elem? c.pipeline r.current_index) [
        | none ↦ ended
        | some mw ↦
            let called =
              call_middleware again r.current_index mw
                (record r { current_index = suc r.current_index }) in
            if past_deadline r then handle_timeout_run (record r { timed_out = true }) else called
      ]

  abbrev pub full_fuel : ℕ
  full_fuel = suc (length c.pipeline)

  -- The run is registered, and its global timer armed.
  abbrev pub start_run : Run C → Run C
  start_run r = record r {
    registered = true;
    execution_start = r.now;
    global_timer = if ltb 0 c.global_timeout && c.has_io_context then pending else r.global_timer;
  }

  -- `execute_async` on a run that has not started.
  unfoldable pub execute_async : Run C → Run C
  unfolding execute_next_async_step
  execute_async r =
      let run = execute_next_async_step full_fuel (start_run r) in
      if is_empty c.pipeline
      then if c.has_callback
        then record r { completions = r.completions ++ (continue, []) ∷ [] }
        else r
      else run

  -- `cancel`, for this run.
  unfoldable pub cancel : Run C → Run C
  cancel r =
      if r.registered
      then record r {
        cancelled = true;
        global_timer = cancel_timer r.global_timer;
        middleware_timer = cancel_timer r.middleware_timer;
      }
      else r

  unfoldable pub global_timeout_fires : Run C → Run C
  unfolding handle_timeout_run
  global_timeout_fires r =
      if is_pending r.global_timer
      then if r.timed_out
        then record r { global_timer = spent }
        else handle_timeout_run (record r { global_timer = spent; timed_out = true })
      else r

  unfoldable pub middleware_timeout_fires : Run C → Run C
  unfolding write_timeout
  middleware_timeout_fires r =
      if is_pending r.middleware_timer
      then if r.timed_out
        then record r { middleware_timer = spent }
        else write_timeout
            (count_timeout r.timer_owner (record r { middleware_timer = spent; timed_out = true }))
      else r
