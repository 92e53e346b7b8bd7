-- ===== src/Middleware/Pipeline/Once.antt =====
-- Whatever happens to a run, its completion callback is called at most once and no middleware is
-- called twice.
use foxhttp.Prelude.{
  ℕ, zero, suc, ◌≤◌, ◌≡◌, refl, sym, subst, ◌≢◌, inl, inr, Bool, true, false, ◌&&◌, List, [], ◌∷◌,
  ◌++◌, arith, ltb, if◌then◌else◌, Bool-cases, Option-cases, length, get_elem?, is_empty, Bytes,
}
use foxhttp.Middleware.Code.{
  Exchange, MiddlewareResult, continue, stop, error, timeout, Exception, Code, done, throw, write,
  wait, next, callback, decide, Middleware,
}
use foxhttp.Middleware.Pipeline.{
  Timer, is_pending, Config, Run, complete_async_run, write_timeout, handle_timeout_run,
  handle_error_run, write_error, count_execution, count_error, reset_middleware_timer, final_result,
  past_deadline, is_blocked, handle_middleware_result_run, async_callback, run_code,
  call_middleware, execute_next_async_step, execute_async, cancel, global_timeout_fires,
  middleware_timeout_fires, full_fuel,
}
use foxhttp.Middleware.Pipeline.Events.{
  Event, late_next, late_callback, global_fires, middleware_fires, cancels, pauses, resumes, passes,
  on_event, run_events, fresh,
}

-- Rising indices from `lo` on, all below `hi`.
abbrev pub Rising : ℕ → List ℕ → ℕ → Type 0
Rising lo [] hi = lo ≤ hi
Rising lo (x ∷ xs) hi = (lo ≤ x) × Rising (suc x) xs hi

Rising-append : (lo : ℕ) (xs : List ℕ) (i : ℕ) → Rising lo xs i → Rising lo (xs ++ i ∷ []) (suc i)
Rising-append lo [] i h = (h, omega arith)
Rising-append lo (x ∷ xs) i (p, h) = (p, Rising-append (suc x) xs i h)

Rising-mono : (lo : ℕ) (xs : List ℕ) (i j : ℕ) → i ≤ j → Rising lo xs i → Rising lo xs j
Rising-mono lo [] i j p h = omega arith
Rising-mono lo (x ∷ xs) i j p (q, h) = (q, Rising-mono (suc x) xs i j p h)

-- A finished run has called its callback once, if it has one; no other run has called it.
abbrev pub Called : {A : Type 0} → Bool → Bool → List A → Type 0
Called true true l = length l ≡ 1
Called false true l = l ≡ []
Called has_callback false l = l ≡ []

abbrev pub NotPending : Bool → Timer → Type 0
NotPending true t = is_pending t ≡ false
NotPending false t = Unit

module _ {C : Type 0} (c : Config C) where
  pub record Inv (r : Run C) : Type 0 where
    pub once : Called c.has_callback r.finished r.completions
    pub rising : Rising 0 r.invoked r.current_index
    pub disarmed : NotPending r.finished r.global_timer

  complete-Inv :
      (result : MiddlewareResult) (message : Bytes) (r : Run C)
      → Inv r
      → Inv (complete_async_run c result message r)
  unfolding complete_async_run
  complete-Inv result message r v = ground arith

  write_timeout-Inv : (r : Run C) → Inv r → Inv (write_timeout c r)
  unfolding write_timeout
  write_timeout-Inv r v = ground arith

  handle_timeout-Inv : (r : Run C) → Inv r → Inv (handle_timeout_run c r)
  unfolding handle_timeout_run
  handle_timeout-Inv r v = complete-Inv timeout _ _ (write_timeout-Inv r v)

  write_error-Inv : (e : Exception) (r : Run C) → Inv r → Inv (write_error c e r)
  unfolding write_error
  write_error-Inv e r v = ground arith

  handle_error-Inv : (e : Exception) (r : Run C) → Inv r → Inv (handle_error_run c e r)
  unfolding handle_error_run
  handle_error-Inv e r v = complete-Inv error e.what _ (write_error-Inv e r v)

  count_execution-Inv :
      (i : ℕ) (result : MiddlewareResult) (r : Run C) → Inv r → Inv (count_execution c i result r)
  count_execution-Inv i result r v = ground arith

  count_error-Inv : (i : ℕ) (r : Run C) → Inv r → Inv (count_error c i r)
  count_error-Inv i r v = ground arith

  module _ (again : Run C → Run C) (keeps : (r : Run C) → Inv r → Inv (again r)) where
    async_callback-Inv :
        (i : ℕ) (result : MiddlewareResult) (message : Bytes) (r : Run C)
        → Inv r
        → Inv (async_callback c again i result message r)
    unfolding async_callback
    async_callback-Inv i result message r v = go result _ (
        count_execution-Inv i result _
          (record { once = v.once; rising = v.rising; disarmed = v.disarmed }))
      where
        go :
            (res : MiddlewareResult) (s : Run C)
            → Inv s
            → Inv (handle_middleware_result_run c again res message s)
        go continue s w = keeps s w
        go stop s w = complete-Inv stop [] s w
        go error s w = complete-Inv error message s w
        go timeout s w = complete-Inv timeout message s w

    run_code-Inv : (i : ℕ) (code : Code C) (r : Run C) → Inv r → Inv (run_code c again i code r)
    unfolding run_code
    run_code-Inv i done r v = v
    run_code-Inv i (throw e) r v = handle_error-Inv e _ (count_error-Inv i r v)
    run_code-Inv i (write f k) r v =
        run_code-Inv i k _ (record { once = v.once; rising = v.rising; disarmed = v.disarmed })
    run_code-Inv i (wait d k) r v =
        run_code-Inv i k _ (record { once = v.once; rising = v.rising; disarmed = v.disarmed })
    run_code-Inv i (next k) r v =
        run_code-Inv i k _
          (keeps _ (record { once = v.once; rising = v.rising; disarmed = v.disarmed }))
    run_code-Inv i (callback result message k) r v =
        run_code-Inv i k _ (async_callback-Inv i result message r v)
    run_code-Inv i (decide test a b) r v = elim (Bool-cases (test r.exchange)) [
      | inl e ↦ rw (e, run_code) (run_code-Inv i a r v)
      | inr e ↦ rw (e, run_code) (run_code-Inv i b r v)
    ]

    call_middleware-Inv :
        (i : ℕ) (mw : Middleware C) (r : Run C)
        → r.current_index ≡ suc i
        → Rising 0 r.invoked i
        → Inv r
        → Inv (call_middleware c again i mw r)
    unfolding call_middleware
    call_middleware-Inv i mw r p rising v =
        let called : Inv (record r { invoked = r.invoked ++ i ∷ [] }) = record {
          once = v.once;
          rising =
              subst (λ n. Rising 0 (r.invoked ++ i ∷ []) n) (sym p)
                (Rising-append 0 r.invoked i rising);
          disarmed = v.disarmed;
        } in
        let timed : Inv (record r {
          invoked = r.invoked ++ i ∷ [];
          middleware_timer = Timer.pending;
          timer_owner = i;
        }) =
          record { once = v.once; rising = called.rising; disarmed = v.disarmed } in
        let plainly = run_code-Inv i mw.async _ called in
        let under_timer = run_code-Inv i mw.async _ timed in
        let passed_over = keeps r v in
        elim (Bool-cases (mw.should_execute r.exchange)) [
          | inr e ↦ rw e passed_over
          | inl e ↦ rw e (elim (Bool-cases (ltb 0 mw.timeout && c.has_io_context)) [
            | inl armed ↦ rw armed under_timer
            | inr free ↦ rw free plainly
          ])
        ]

  step-Inv : (fuel : ℕ) (r : Run C) → Inv r → Inv (execute_next_async_step c fuel r)
  unfolding execute_next_async_step
  step-Inv zero r v = v
  step-Inv (suc fuel) r v =
      let ended = complete-Inv (final_result c r) [] r v in
      let late =
        handle_timeout-Inv (record r { timed_out = true })
          (record { once = v.once; rising = v.rising; disarmed = v.disarmed }) in
      elim (Bool-cases (is_blocked c r)) [
        | inl e ↦ rw e ended
        | inr e ↦ rw e (elim (Option-cases (get_elem? c.pipeline r.current_index)) [
          | inl q ↦ rw (q) ended
          | inr (mw, q) ↦ rw q (elim (Bool-cases (past_deadline c r)) [
            | inl d ↦ rw d late
            | inr d ↦ rw d (
                call_middleware-Inv (execute_next_async_step c fuel) (step-Inv fuel) r.current_index
                  mw _ refl v.rising
                  (record {
                    once = v.once;
                    rising = Rising-mono 0 r.invoked _ _ (omega arith) v.rising;
                    disarmed = v.disarmed;
                  }))
          ])
        ])
      ]

  write_late_timeout-Inv : (r : Run C) → Inv r → Inv (middleware_timeout_fires c r)
  unfolding middleware_timeout_fires
  write_late_timeout-Inv r v = ground arith

  global_timeout_fires-Inv : (r : Run C) → Inv r → Inv (global_timeout_fires c r)
  unfolding global_timeout_fires
  global_timeout_fires-Inv r v =
      let late =
        handle_timeout-Inv (record r { global_timer = Timer.spent; timed_out = true })
          (record { once = v.once; rising = v.rising; disarmed = ground arith }) in
      ground (arith, late)

  on_event-Inv : (e : Event) (r : Run C) → Inv r → Inv (on_event c e r)
  unfolding on_event cancel
  on_event-Inv late_next r v =
      step-Inv (full_fuel c) (reset_middleware_timer c r)
        (record { once = v.once; rising = v.rising; disarmed = v.disarmed })
  on_event-Inv (late_callback i result message) r v =
      async_callback-Inv (execute_next_async_step c (full_fuel c)) (step-Inv (full_fuel c)) i result
        message r v
  on_event-Inv global_fires r v = global_timeout_fires-Inv r v
  on_event-Inv middleware_fires r v = write_late_timeout-Inv r v
  on_event-Inv cancels r v = ground arith
  on_event-Inv pauses r v = record { once = v.once; rising = v.rising; disarmed = v.disarmed }
  on_event-Inv resumes r v = record { once = v.once; rising = v.rising; disarmed = v.disarmed }
  on_event-Inv (passes d) r v = record { once = v.once; rising = v.rising; disarmed = v.disarmed }

  run_events-Inv : (es : List Event) (r : Run C) → Inv r → Inv (run_events c es r)
  unfolding run_events
  run_events-Inv [] r v = v
  run_events-Inv (e ∷ es) r v = run_events-Inv es (on_event c e r) (on_event-Inv e r v)

  fresh-Inv : (x : Exchange C) (now : ℕ) → Inv (fresh x now)
  fresh-Inv x now = record { once = refl; rising = omega arith; disarmed = tt }

  pub started-Inv :
      (x : Exchange C) (now : ℕ) → c.pipeline ≢ [] → Inv (execute_async c (fresh x now))
  unfolding execute_async
  started-Inv x now h =
      let begun =
        step-Inv (full_fuel c)
          (record (fresh x now) {
            registered = true;
            execution_start = now;
            global_timer =
                if ltb 0 c.global_timeout && c.has_io_context then Timer.pending else Timer.unset;
          })
          (record { once = refl; rising = omega arith; disarmed = tt }) in
      elim (Bool-cases (is_empty c.pipeline)) [ inl e ↦ absurd (ground arith) | inr e ↦ rw e begun ]

  -- After `execute_async` on a pipeline that is not empty, whatever its middlewares call and
  -- whatever comes later (callbacks again, timers, cancellation, pauses), the completion callback
  -- has been called at most once, exactly once if the run is finished and was given one; the middlewares were called in rising order, so none twice; and
  -- once the run is finished its global timer can no longer fire.
  pub execute_async-Inv :
      (es : List Event) (x : Exchange C) (now : ℕ)
      → c.pipeline ≢ []
      → Inv (run_events c es (execute_async c (fresh x now)))
  execute_async-Inv es x now h = run_events-Inv es _ (started-Inv x now h)
