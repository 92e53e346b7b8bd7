-- ===== src/Middleware/Sync.antt =====
-- `MiddlewareChain::execute` (src/middleware/middleware_chain.cpp): the pipeline run on the caller's
-- thread. A run is that of the asynchronous pipeline.
pub mod Laws
use foxhttp.Prelude.{
  ℕ, zero, suc, ◌+◌, ◌-◌, ◌*◌, ◌/◌, ◌%◌, ◌^◌, ◌≤◌, ◌<◌, ◌≡◌, refl, sym, ap, ◌∙◌, subst, ◌≢◌, ◌↔◌,
  ◌⊎◌, inl, inr, Bool, true, false, ◌&&◌, ◌||◌, not, Option, none, some, List, [], ◌∷◌, ◌++◌, map,
  append-nil, append_assoc, arith, ltb, leb, ◌==◌, if◌then◌else◌, ltb→lt, lt→ltb, leb→le, le→leb,
  ==_iff, ==_refl, ne→==, tests, Bool-cases, Option-cases, Result, ok, err, Result-cases, length,
  get_elem?, take, drop, is_empty, keep, length-append, take-append-drop, length-drop,
  take-length-append, drop-length-append, drop-add, drop-past, All, All-append, Bytes, codes, same,
  find, has, starts_with, Lacks, same_iff, same_refl, find-append, find-eq-none, find-lt-length,
  find-Lacks, find_split, drop_at, lookup, insert, lookup-insert, is_empty_of_lookup, lookup-nil,
}
use foxhttp.Middleware.Code.{
  Exchange, answer, continue, Exception, Code, done, throw, write, wait, next, callback, decide,
  Middleware,
}
use foxhttp.Middleware.Pipeline.{
  Config, Run, is_blocked, count_execution, count_error, reset_middleware_timer, write_timeout,
  try_finish_run, full_fuel,
}

module _ {C : Type 0} (c : Config C) where
  unfoldable pub write_sync_error : Exception → Run C → Run C
  write_sync_error e r = elim c.error_handler [
    | some eh ↦ record r { exchange = eh e r.exchange }
    | none ↦ record r {
      exchange = answer 500 (codes "text/plain") (codes "middleware error: " ++ e.what) r.exchange;
    }
  ]

  -- `(*mw)(ctx, res, next)` within its `try`. A three-argument operator has no callback to call.
  unfoldable pub run_sync : (Run C → Run C) → ℕ → Code C → Run C → Run C
  unfolding write_sync_error
  run_sync again i done r = count_execution c i continue r
  run_sync again i (throw e) r = write_sync_error e (count_error c i r)
  run_sync again i (write f k) r = run_sync again i k (record r { exchange = f r.exchange })
  run_sync again i (wait d k) r = run_sync again i k (record r { now = r.now + d })
  run_sync again i (next k) r = run_sync again i k (again (reset_middleware_timer c r))
  run_sync again i (callback result message k) r = run_sync again i k r
  run_sync again i (decide test a b) r = elim (test r.exchange) [
    | true ↦ run_sync again i a r
    | false ↦ run_sync again i b r
  ]

  abbrev pub past_sync_deadline : Run C → Bool
  past_sync_deadline r = ltb 0 c.global_timeout && ltb c.global_timeout (r.now - r.execution_start)

  unfoldable pub call_sync : (Run C → Run C) → ℕ → Middleware C → Run C → Run C
  unfolding run_sync
  call_sync again i mw r =
      let passed_over = again r in
      let called = run_sync again i mw.sync (record r { invoked = r.invoked ++ i ∷ [] }) in
      if mw.should_execute r.exchange then called else passed_over

  unfoldable pub execute_next_sync : ℕ → Run C → Run C
  unfolding call_sync write_timeout
  execute_next_sync zero r = r
  execute_next_sync (suc fuel) r =
      let again = execute_next_sync fuel in
      if is_blocked c r then r else elim (get_elem? c.pipeline r.current_index) [
        | none ↦ r
        | some mw ↦
            let called =
              call_sync again r.current_index mw
                (record r { current_index = suc r.current_index }) in
            if past_sync_deadline r then write_timeout c (record r { timed_out = true }) else called
      ]

  unfoldable pub execute : Run C → Run C
  unfolding execute_next_sync try_finish_run
  execute r =
      let run =
        execute_next_sync (full_fuel c) (record r { registered = true; execution_start = r.now }) in
      if is_empty c.pipeline then r else (try_finish_run c run).0
