-- ===== src/Middleware/Pipeline/Silent.antt =====
-- A middleware that neither calls `next` nor its callback, in an asynchronous run.
use foxhttp.Prelude.{
  ℕ, suc, ◌+◌, ◌≡◌, refl, ◌∙◌, inl, inr, true, false, ◌&&◌, if◌then◌else◌, some, [], ◌∷◌, ◌++◌,
  arith, ltb, Bool-cases, get_elem?,
}
use foxhttp.Middleware.Code.{
  Exchange, continue, Code, done, throw, write, wait, next, callback, decide, Middleware,
  default_async,
}
use foxhttp.Middleware.Pipeline.{
  Config, Run, count_execution, reset_middleware_timer, past_deadline, is_blocked, async_callback,
  setup_middleware_timeout, run_code, call_middleware, execute_next_async_step,
}

-- Code that only reads, writes and waits, and so stops a synchronous pipeline.
abbrev pub IsSilent : {C : Type 0} → Code C → Type 0
IsSilent done = Unit
IsSilent (throw e) = ⊥
IsSilent (write f k) = IsSilent k
IsSilent (wait d k) = IsSilent k
IsSilent (next k) = ⊥
IsSilent (callback result message k) = ⊥
IsSilent (decide test a b) = IsSilent a × IsSilent b

-- Code that does so on what it reads in `x`.
abbrev pub IsSilentOn : {C : Type 0} → Code C → Exchange C → Type 0
IsSilentOn done x = Unit
IsSilentOn (throw e) x = ⊥
IsSilentOn (write f k) x = IsSilentOn k (f x)
IsSilentOn (wait d k) x = IsSilentOn k x
IsSilentOn (next k) x = ⊥
IsSilentOn (callback result message k) x = ⊥
IsSilentOn (decide test a b) x =
    (test x ≡ true → IsSilentOn a x) × (test x ≡ false → IsSilentOn b x)

-- The exchange that such code leaves.
abbrev pub written : {C : Type 0} → Code C → Exchange C → Exchange C
written done x = x
written (throw e) x = x
written (write f k) x = written k (f x)
written (wait d k) x = written k x
written (next k) x = x
written (callback result message k) x = x
written (decide test a b) x =
    let then_left = written a x in
    let else_left = written b x in if test x then then_left else else_left

pub IsSilent-IsSilentOn :
    {C : Type 0} (code : Code C) (x : Exchange C) → IsSilent code → IsSilentOn code x
IsSilent-IsSilentOn done x h = tt
IsSilent-IsSilentOn (throw e) x h = elim h [ ]
IsSilent-IsSilentOn (write f k) x h = IsSilent-IsSilentOn k (f x) h
IsSilent-IsSilentOn (wait d k) x h = IsSilent-IsSilentOn k x h
IsSilent-IsSilentOn (next k) x h = elim h [ ]
IsSilent-IsSilentOn (callback result message k) x h = elim h [ ]
IsSilent-IsSilentOn (decide test a b) x h =
    (λ _. IsSilent-IsSilentOn a x h.0, λ _. IsSilent-IsSilentOn b x h.1)

module _ {C : Type 0} (c : Config C) where
  -- What a run that goes on with the exchange `left` still has in common with `r`.
  pub record GoesOn (again : Run C → Run C) (r : Run C) (left : Exchange C) (result : Run C)
      : Type 0 where
    pub resumed : Run C
    pub result_of : result ≡ again resumed
    pub exchange : resumed.exchange ≡ left
    pub same_index : resumed.current_index ≡ r.current_index
    pub same_invoked : resumed.invoked ≡ r.invoked
    pub same_finished : resumed.finished ≡ r.finished
    pub same_cancelled : resumed.cancelled ≡ r.cancelled
    pub same_timed_out : resumed.timed_out ≡ r.timed_out
    pub same_paused : resumed.paused ≡ r.paused

  GoesOn-same :
      (again : Run C → Run C) (r s : Run C) (left : Exchange C) (result : Run C)
      → GoesOn again s left result
      → s.current_index ≡ r.current_index
      → s.invoked ≡ r.invoked
      → s.finished ≡ r.finished
      → s.cancelled ≡ r.cancelled
      → s.timed_out ≡ r.timed_out
      → s.paused ≡ r.paused
      → GoesOn again r left result
  GoesOn-same again r s left result g index invoked finished cancelled timed_out paused = record {
    resumed = g.resumed;
    result_of = g.result_of;
    exchange = g.exchange;
    same_index = g.same_index ∙ index;
    same_invoked = g.same_invoked ∙ invoked;
    same_finished = g.same_finished ∙ finished;
    same_cancelled = g.same_cancelled ∙ cancelled;
    same_timed_out = g.same_timed_out ∙ timed_out;
    same_paused = g.same_paused ∙ paused;
  }

  silent_GoesOn :
      (again : Run C → Run C) (i : ℕ) (code : Code C) (r : Run C)
      → IsSilentOn code r.exchange
      → GoesOn again r (written code r.exchange) (run_code c again i (default_async code) r)
  unfolding run_code default_async async_callback
  silent_GoesOn again i done r h = record {
    resumed = count_execution c i continue (reset_middleware_timer c r);
    result_of = refl;
    exchange = ground arith;
    same_index = ground arith;
    same_invoked = ground arith;
    same_finished = ground arith;
    same_cancelled = ground arith;
    same_timed_out = ground arith;
    same_paused = ground arith;
  }
  silent_GoesOn again i (throw e) r h = elim h [ ]
  silent_GoesOn again i (write f k) r h =
      GoesOn-same again r _ _ _ (silent_GoesOn again i k (record r { exchange = f r.exchange }) h)
        refl refl refl refl refl refl
  silent_GoesOn again i (wait d k) r h =
      GoesOn-same again r _ _ _ (silent_GoesOn again i k (record r { now = r.now + d }) h) refl refl
        refl refl refl refl
  silent_GoesOn again i (next k) r h = elim h [ ]
  silent_GoesOn again i (callback result message k) r h = elim h [ ]
  silent_GoesOn again i (decide test a b) r h = elim (Bool-cases (test r.exchange)) [
    | inl e ↦ rw (e, run_code) (silent_GoesOn again i a r (h.0 e))
    | inr e ↦ rw (e, run_code) (silent_GoesOn again i b r (h.1 e))
  ]

  -- A middleware without an asynchronous operator of its own does not stop an asynchronous run by
  -- calling neither `next` nor its callback on the exchange at hand: unless the run is blocked or
  -- past its deadline, the step that calls it goes on with the step for the middleware behind it, on
  -- the exchange as the middleware's code left it, in a run that is as little finished, cancelled, timed out or paused as before.
  pub silent_middleware_passes :
      (fuel : ℕ) (r : Run C) (mw : Middleware C)
      → get_elem? c.pipeline r.current_index ≡ some mw
      → mw.async ≡ default_async mw.sync
      → IsSilentOn mw.sync r.exchange
      → mw.should_execute r.exchange ≡ true
      → is_blocked c r ≡ false
      → past_deadline c r ≡ false
      → GoesOn
          (execute_next_async_step c fuel)
          (record r {
            current_index = suc r.current_index;
            invoked = r.invoked ++ r.current_index ∷ [];
          })
          (written mw.sync r.exchange)
          (execute_next_async_step c (suc fuel) r)
  unfolding execute_next_async_step call_middleware setup_middleware_timeout
  silent_middleware_passes fuel r mw q plain silent runs free early =
      let again = execute_next_async_step c fuel in
      let called : Run C = record r {
        current_index = suc r.current_index;
        invoked = r.invoked ++ r.current_index ∷ [];
      } in
      let direct = silent_GoesOn again r.current_index mw.sync called silent in
      let timed =
        silent_GoesOn again r.current_index mw.sync
          (setup_middleware_timeout c r.current_index called) silent in
      rw (free, q, early, runs, plain)
        (elim (Bool-cases (ltb 0 mw.timeout && c.has_io_context)) [
          | inl armed ↦ rw armed (
              GoesOn-same again called (setup_middleware_timeout c r.current_index called) _ _ timed
                refl refl refl refl refl refl)
          | inr bare ↦ rw bare direct
        ])
