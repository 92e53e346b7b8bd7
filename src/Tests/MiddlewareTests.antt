-- ===== src/Tests/MiddlewareTests.antt =====
-- Pipelines of two middlewares, a chain, and a rate limiter.
use foxhttp.Prelude.{ℕ, ◌≡◌, refl, ◌≢◌, true, none, List, [], ◌∷◌, arith, codes, lookup}
use foxhttp.Middleware.Code.{
  Exchange, answer, continue, done, write, next, Middleware, normal, high, sync_only,
}
use foxhttp.Middleware.Pipeline.{Config, execute_async, execute_next_async_step}
use foxhttp.Middleware.Pipeline.Events.{
  fresh, Event, late_next, late_callback, global_fires, cancels, passes, run_events,
}
use foxhttp.Middleware.Pipeline.Once.{Inv, Called, execute_async-Inv}
use foxhttp.Middleware.Pipeline.Live.{execute_async_completes}
use foxhttp.Middleware.Pipeline.Silent.{written, GoesOn, silent_middleware_passes}
use foxhttp.Middleware.Sync.{execute, execute_next_sync}
use foxhttp.Middleware.Sync.Laws.{silent_middleware_stops, execute-indices}
use foxhttp.Middleware.Chain.{Chain, new_chain}
use foxhttp.Middleware.RateLimit.{RateLimiter, new_limiter, rate_limit_code}
use foxhttp.Middleware.RateLimit.Laws.{admitted, admitted-open}

abbrev start : Exchange ℕ
start = record { ctx = 0; res = record { status = 200; headers = []; body = [] } }

abbrev greet : Middleware ℕ
greet =
    sync_only (codes "greet") normal
      (write (answer 200 (codes "text/plain") (codes "hello")) (next done))

abbrev limiter : Middleware ℕ
limiter = sync_only (codes "advanced_rate_limit_middleware") high (rate_limit_code 60 true)

abbrev welcome : Config ℕ
welcome = record {
  pipeline = greet ∷ greet ∷ [];
  error_handler = none;
  timeout_handler = none;
  global_timeout = 0;
  statistics = true;
  has_io_context = true;
  has_callback = true;
}

abbrev limited : Config ℕ
limited = record welcome { pipeline = limiter ∷ greet ∷ [] }

nonempty : {A : Type 0} (x : A) (xs : List A) → x ∷ xs ≢ []
nonempty x xs e = cc

abbrev events : List Event
events = late_next ∷ late_callback 0 continue [] ∷ global_fires ∷ cancels ∷ passes 5 ∷ []

execute_async-Inv_example :
    Inv welcome (run_events welcome events (execute_async welcome (fresh start 7)))
execute_async-Inv_example = execute_async-Inv welcome events start 7 (nonempty greet (greet ∷ []))

execute_async_completes_example :
    ((execute_async welcome (fresh start 7)).finished ≡ true)
    × Called true true (execute_async welcome (fresh start 7)).completions
execute_async_completes_example =
    execute_async_completes welcome start 7 (nonempty greet (greet ∷ [])) (refl, (refl, tt))

-- The request is over the limit, and the asynchronous run goes on with `greet`.
silent_middleware_passes_example :
    GoesOn limited
      (execute_next_async_step limited 2)
      (record (fresh start 7) { current_index = 1; invoked = 0 ∷ [] })
      (written limiter.sync start)
      (execute_next_async_step limited 3 (fresh start 7))
unfolding rate_limit_code
silent_middleware_passes_example =
    silent_middleware_passes limited 2 (fresh start 7) limiter refl refl tt refl refl refl

-- The synchronous run ends with the limiter.
silent_middleware_stops_example : (execute_next_sync limited 3 (fresh start 7)).invoked ≡ 0 ∷ []
unfolding rate_limit_code
silent_middleware_stops_example =
    silent_middleware_stops limited 2 (fresh start 7) limiter refl tt refl refl refl

execute-indices_example : (execute welcome (fresh start 7)).invoked ≡ 0 ∷ 1 ∷ []
execute-indices_example =
    execute-indices welcome start 7 refl ((tt, λ x. refl), ((tt, λ x. refl), tt))

abbrev greeting_chain : Chain ℕ
greeting_chain = record new_chain { mws = greet ∷ [] }

-- Two of three requests go through where the limit is two.
abbrev opened : RateLimiter
opened = record (new_limiter 2 60) { buckets = (codes "a", record { count = 1; start = 100 }) ∷ [] }

admitted-open_example : admitted opened (codes "a") (110 ∷ 120 ∷ 159 ∷ []) ≡ 1
unfolding lookup
admitted-open_example =
    admitted-open (110 ∷ 120 ∷ 159 ∷ []) opened (codes "a") (omega arith)
      (omega arith, (omega arith, (omega arith, tt)))
