-- ===== src/Middleware/Pipeline/Events.antt =====
-- What may happen to a run after it started, and a run before.
use foxhttp.Prelude.{ℕ, ◌+◌, true, false, List, [], ◌∷◌, Bytes}
use foxhttp.Middleware.Code.{Exchange, MiddlewareResult}
use foxhttp.Middleware.Pipeline.{
  Run, Config, unset, full_fuel, execute_next_async_step, reset_middleware_timer, async_callback,
  global_timeout_fires, middleware_timeout_fires, cancel,
}

-- What may happen to a run between and after the calls of its middlewares.
pub data Event : Type 0 where
  late_next : Event
  late_callback : ℕ → MiddlewareResult → Bytes → Event
  global_fires middleware_fires cancels pauses resumes : Event
  passes : ℕ → Event

module _ {C : Type 0} (c : Config C) where
  unfoldable pub on_event : Event → Run C → Run C
  unfolding execute_next_async_step async_callback global_timeout_fires middleware_timeout_fires
      cancel
  on_event late_next r = execute_next_async_step c (full_fuel c) (reset_middleware_timer c r)
  on_event (late_callback i result message) r =
      async_callback c (execute_next_async_step c (full_fuel c)) i result message r
  on_event global_fires r = global_timeout_fires c r
  on_event middleware_fires r = middleware_timeout_fires c r
  on_event cancels r = cancel c r
  on_event pauses r = record r { paused = true }
  on_event resumes r = record r { paused = false }
  on_event (passes d) r = record r { now = r.now + d }

  unfoldable pub run_events : List Event → Run C → Run C
  run_events [] r = r
  run_events (e ∷ es) r = run_events es (on_event e r)

-- A run before it starts.
abbrev pub fresh : {C : Type 0} → Exchange C → ℕ → Run C
fresh x now = record {
  current_index = 0;
  timed_out = false;
  cancelled = false;
  finished = false;
  paused = false;
  execution_start = 0;
  now = now;
  global_timer = unset;
  middleware_timer = unset;
  timer_owner = 0;
  exchange = x;
  stats = λ _. record { execution_count = 0; error_count = 0; timeout_count = 0 };
  registered = false;
  invoked = [];
  completions = [];
}
