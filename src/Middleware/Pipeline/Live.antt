-- ===== src/Middleware/Pipeline/Live.antt =====
-- A pipeline of middlewares with the default asynchronous operator always completes, and does so
-- without heed to whether they called `next`.
use foxhttp.Prelude.{
  ℕ, zero, suc, ◌+◌, ◌≤◌, ◌<◌, ◌≡◌, subst, ◌≢◌, inl, inr, true, some, List, [], ◌∷◌, ◌++◌, arith,
  Bool-cases, Option-cases, length, get_elem?, is_empty, All, Bytes, codes,
}
use foxhttp.Middleware.Code.{
  Exchange, MiddlewareResult, continue, stop, error, timeout, Exception, Code, done, throw, write,
  wait, next, callback, decide, Middleware, default_async,
}
use foxhttp.Middleware.Pipeline.{
  Config, Run, complete_async_run, write_timeout, handle_timeout_run, handle_error_run, write_error,
  count_execution, count_error, reset_middleware_timer, final_result, handle_middleware_result_run,
  async_callback, setup_middleware_timeout, run_code, call_middleware, execute_next_async_step,
  execute_async, full_fuel, start_run,
}
use foxhttp.Middleware.Pipeline.Events.{fresh}
use foxhttp.Middleware.Pipeline.Once.{Called, started-Inv}

module _ {C : Type 0} (c : Config C) where
  pub complete_finished :
      (result : MiddlewareResult) (message : Bytes) (r : Run C)
      → (complete_async_run c result message r).finished ≡ true
  unfolding complete_async_run
  complete_finished result message r = ground arith

  -- No step moves `current_index` back.
  abbrev Past : ℕ → Run C → Type 0
  Past n r = n ≤ r.current_index

  complete-Past :
      (n : ℕ) (result : MiddlewareResult) (message : Bytes) (r : Run C)
      → Past n r
      → Past n (complete_async_run c result message r)
  unfolding complete_async_run
  complete-Past n result message r h = ground arith

  handle_timeout-Past : (n : ℕ) (r : Run C) → Past n r → Past n (handle_timeout_run c r)
  unfolding handle_timeout_run write_timeout
  handle_timeout-Past n r h =
      complete-Past n timeout (codes "Request timeout") (write_timeout c r) (ground arith)

  write_error-Past : (n : ℕ) (e : Exception) (r : Run C) → Past n r → Past n (write_error c e r)
  unfolding write_error
  write_error-Past n e r h = ground arith

  count_execution-Past :
      (n i : ℕ) (result : MiddlewareResult) (r : Run C)
      → Past n r
      → Past n (count_execution c i result r)
  count_execution-Past n i result r h = ground arith

  count_error-Past : (n i : ℕ) (r : Run C) → Past n r → Past n (count_error c i r)
  count_error-Past n i r h = ground arith

  module _ (again : Run C → Run C) (n : ℕ) (keeps : (r : Run C) → Past n r → Past n (again r)) where
    async_callback-Past :
        (i : ℕ) (result : MiddlewareResult) (message : Bytes) (r : Run C)
        → Past n r
        → Past n (async_callback c again i result message r)
    unfolding async_callback
    async_callback-Past i result message r h =
        go result _ (count_execution-Past n i result (reset_middleware_timer c r) h)
      where
        go :
            (res : MiddlewareResult) (s : Run C)
            → Past n s
            → Past n (handle_middleware_result_run c again res message s)
        go continue s w = keeps s w
        go stop s w = complete-Past n stop [] s w
        go error s w = complete-Past n error message s w
        go timeout s w = complete-Past n timeout message s w

    run_code-Past :
        (i : ℕ) (code : Code C) (r : Run C) → Past n r → Past n (run_code c again i code r)
    unfolding run_code handle_error_run
    run_code-Past i done r h = h
    run_code-Past i (throw e) r h =
        complete-Past n error e.what _ (write_error-Past n e _ (count_error-Past n i r h))
    run_code-Past i (write f k) r h = run_code-Past i k _ h
    run_code-Past i (wait d k) r h = run_code-Past i k _ h
    run_code-Past i (next k) r h = run_code-Past i k _ (keeps (reset_middleware_timer c r) h)
    run_code-Past i (callback result message k) r h =
        run_code-Past i k _ (async_callback-Past i result message r h)
    run_code-Past i (decide test a b) r h = elim (Bool-cases (test r.exchange)) [
      | inl e ↦ rw (e, run_code) (run_code-Past i a r h)
      | inr e ↦ rw (e, run_code) (run_code-Past i b r h)
    ]

    call_middleware-Past :
        (i : ℕ) (mw : Middleware C) (r : Run C) → Past n r → Past n (call_middleware c again i mw r)
    unfolding call_middleware
    call_middleware-Past i mw r h =
        let called : Run C = record r { invoked = r.invoked ++ i ∷ [] } in
        let plainly = run_code-Past i mw.async called h in
        let under_timer = run_code-Past i mw.async (setup_middleware_timeout c i called) h in
        ground (arith, plainly, under_timer, keeps r h)

  step-Past : (fuel n : ℕ) (r : Run C) → Past n r → Past n (execute_next_async_step c fuel r)
  unfolding execute_next_async_step
  step-Past zero n r h = h
  step-Past (suc fuel) n r h =
      let moved : Run C = record r { current_index = suc r.current_index } in
      let ended = complete-Past n (final_result c r) [] r h in
      let late = handle_timeout-Past n (record r { timed_out = true }) h in
      elim (Option-cases (get_elem? c.pipeline r.current_index)) [
        | inl q ↦ ground (arith, ended)
        | inr (mw, q) ↦ ground (
          arith,
          ended,
          late,
          call_middleware-Past (execute_next_async_step c fuel) n (step-Past fuel n) r.current_index
              mw moved (omega arith),
        )
      ]

  module _ (again : Run C → Run C) (n : ℕ) (keeps : (r : Run C) → Past n r → Past n (again r))
      (ends : (r : Run C) → Past n r → (again r).finished ≡ true) where
    async_continue_finished :
        (i : ℕ) (message : Bytes) (r : Run C)
        → Past n r
        → (async_callback c again i continue message r).finished ≡ true
    unfolding async_callback
    async_continue_finished i message r h =
        ends _ (count_execution-Past n i continue (reset_middleware_timer c r) h)

    async_error_finished :
        (i : ℕ) (message : Bytes) (r : Run C)
        → (async_callback c again i error message r).finished ≡ true
    unfolding async_callback
    async_error_finished i message r =
        complete_finished error message (count_execution c i error (reset_middleware_timer c r))

    -- Code that ends with the callback finishes the run.
    run_default_async_finished :
        (i : ℕ) (code : Code C) (r : Run C)
        → Past n r
        → (run_code c again i (default_async code) r).finished ≡ true
    unfolding run_code default_async
    run_default_async_finished i done r h = async_continue_finished i [] r h
    run_default_async_finished i (throw e) r h = async_error_finished i e.what r
    run_default_async_finished i (write f k) r h = run_default_async_finished i k _ h
    run_default_async_finished i (wait d k) r h = run_default_async_finished i k _ h
    run_default_async_finished i (next k) r h =
        run_default_async_finished i k _ (keeps (reset_middleware_timer c r) h)
    run_default_async_finished i (callback result message k) r h =
        run_default_async_finished i k _ (async_callback-Past again n keeps i result message r h)
    run_default_async_finished i (decide test a b) r h = elim (Bool-cases (test r.exchange)) [
      | inl e ↦ rw (e, run_code) (run_default_async_finished i a r h)
      | inr e ↦ rw (e, run_code) (run_default_async_finished i b r h)
    ]

  handle_timeout_finished : (r : Run C) → (handle_timeout_run c r).finished ≡ true
  unfolding handle_timeout_run
  handle_timeout_finished r =
      complete_finished timeout (codes "Request timeout") (write_timeout c r)

  abbrev pub HasDefault : Middleware C → Type 0
  HasDefault mw = mw.async ≡ default_async mw.sync

  call_default_finished :
      (again : Run C → Run C) (n : ℕ)
      → ((r : Run C) → Past n r → Past n (again r))
      → ((r : Run C) → Past n r → (again r).finished ≡ true)
      → (i : ℕ) (mw : Middleware C) (r : Run C) → HasDefault mw
      → Past n r
      → (call_middleware c again i mw r).finished ≡ true
  unfolding call_middleware
  call_default_finished again n keeps ends i mw r plain h =
      let called : Run C = record r { invoked = r.invoked ++ i ∷ [] } in
      let plainly = run_default_async_finished again n keeps ends i mw.sync called h in
      let under_timer =
        run_default_async_finished again n keeps ends i mw.sync
          (setup_middleware_timeout c i called) h in
      rw plain (ground (arith, plainly, under_timer, ends r h))

  some-inj : (a b : Middleware C) → some a ≡ some b → a ≡ b
  some-inj a b e = cc

  All-get_elem? :
      (l : List (Middleware C)) (i : ℕ) (mw : Middleware C)
      → All HasDefault l
      → get_elem? l i ≡ some mw
      → HasDefault mw × (i < length l)
  All-get_elem? [] i mw a e = cc
  All-get_elem? (x ∷ l) zero mw (p, a) e = (subst HasDefault (some-inj x mw e) p, omega arith)
  All-get_elem? (x ∷ l) (suc i) mw (p, a) e =
      let (q, lt) = All-get_elem? l i mw a e in (q, omega arith)

  step_finished :
      (fuel : ℕ) (r : Run C)
      → All HasDefault c.pipeline
      → length c.pipeline < fuel + r.current_index
      → 0 < fuel
      → (execute_next_async_step c fuel r).finished ≡ true
  unfolding execute_next_async_step
  step_finished zero r a h p = elim p [ ]
  step_finished (suc fuel) r a h p =
      let moved : Run C = record r { current_index = suc r.current_index } in
      let ended = complete_finished (final_result c r) [] r in
      let late = handle_timeout_finished (record r { timed_out = true }) in
      elim (Option-cases (get_elem? c.pipeline r.current_index)) [
        | inl q ↦ ground (arith, ended)
        | inr (mw, q) ↦
            let (plain, within) = All-get_elem? c.pipeline r.current_index mw a q in
            ground (
              arith,
              ended,
              late,
              call_default_finished (execute_next_async_step c fuel) (suc r.current_index)
                  (step-Past fuel (suc r.current_index))
                  (λ s past. step_finished fuel s a (omega arith) (omega arith)) r.current_index mw
                  moved plain (omega arith),
            )
      ]

  execute_async_finished :
      (x : Exchange C) (now : ℕ)
      → c.pipeline ≢ []
      → All HasDefault c.pipeline
      → (execute_async c (fresh x now)).finished ≡ true
  unfolding execute_async
  execute_async_finished x now h a = elim (Bool-cases (is_empty c.pipeline)) [
    | inl e ↦ absurd (ground arith)
    | inr e ↦
        rw e (step_finished (full_fuel c) (start_run c (fresh x now)) a (omega arith) (omega arith))
  ]

  -- When every middleware has the default asynchronous operator, `execute_async` has finished the
  -- run by the time it returns, whether the middlewares call `next`, throw, or do neither; the
  -- completion callback, if there is one, has then been called exactly once.
  pub execute_async_completes :
      (x : Exchange C) (now : ℕ)
      → c.pipeline ≢ []
      → All HasDefault c.pipeline
      → ((execute_async c (fresh x now)).finished ≡ true)
        × Called c.has_callback true (execute_async c (fresh x now)).completions
  execute_async_completes x now h a =
      let done = execute_async_finished x now h a in
      let v = started-Inv c x now h in
      (
        done,
        subst (λ b. Called c.has_callback b (execute_async c (fresh x now)).completions) done
            v.once,
      )
