-- ===== src/Middleware/Auth/Gate.antt =====
-- A request that no scheme accepts, in the two pipelines.
use foxhttp.Prelude.{ℕ, suc, ◌≡◌, refl, false, none, some, [], ◌∷◌, ◌++◌, arith, ok, get_elem?}
use foxhttp.Middleware.Code.{Exchange}
use foxhttp.Middleware.Pipeline.{Config, Run, is_blocked, past_deadline, execute_next_async_step}
use foxhttp.Middleware.Pipeline.Silent.{IsSilentOn, written, GoesOn, silent_middleware_passes}
use foxhttp.Middleware.Sync.{run_sync, past_sync_deadline, call_sync, execute_next_sync}
use foxhttp.Middleware.Sync.Laws.{silent_middleware_stops}
use foxhttp.Middleware.Auth.{Request, AuthMiddleware, verdict, accepts, auth_code, auth_middleware}
use foxhttp.Middleware.Auth.Outcome.{IsBare, try_schemes-bare}

auth_code-IsSilentOn :
    (m : AuthMiddleware) (x : Exchange Request)
    → accepts (verdict m x) ≡ false
    → IsSilentOn (auth_code m) x
unfolding auth_code
auth_code-IsSilentOn m x h = (λ _. tt, λ _. (λ e. absurd (cc), λ _. tt))

module _ (c : Config Request) (m : AuthMiddleware) where
  refused_status :
      (again : Run Request → Run Request) (i : ℕ) (r : Run Request)
      → verdict m r.exchange ≡ ok none
      → (run_sync c again i (auth_code m) r).exchange.res.status ≡ 401
  unfolding run_sync auth_code
  refused_status again i r e = rw (e, run_sync, e, run_sync) (ground arith)

  written_status :
      (x : Exchange Request)
      → accepts (verdict m x) ≡ false
      → (written (auth_code m) x).res.status ≡ 401
  unfolding auth_code
  written_status x h = ground arith

  -- In an asynchronous run the authentication middleware keeps no request from the middleware
  -- behind it: unless the run is blocked or past its deadline, the step for one that no
  -- scheme accepts, or on which a validator throws, goes on with the middlewares behind, on the
  -- exchange that the code left, whose answer is 401.
  pub refused_request_passes :
      (fuel : ℕ) (r : Run Request)
      → get_elem? c.pipeline r.current_index ≡ some (auth_middleware m)
      → accepts (verdict m r.exchange) ≡ false
      → is_blocked c r ≡ false
      → past_deadline c r ≡ false
      → GoesOn c
          (execute_next_async_step c fuel)
          (record r {
            current_index = suc r.current_index;
            invoked = r.invoked ++ r.current_index ∷ [];
          })
          (written (auth_code m) r.exchange)
          (execute_next_async_step c (suc fuel) r)
        × ((written (auth_code m) r.exchange).res.status ≡ 401)
  unfolding auth_middleware
  refused_request_passes fuel r q no_user free early = (
    silent_middleware_passes c fuel r (auth_middleware m) q refl
        (auth_code-IsSilentOn m r.exchange no_user) refl free early,
    written_status r.exchange no_user,
  )

  -- In a synchronous run a request without credentials (no authorization header, no API key in
  -- header or query, no session cookie) is answered 401 and reaches no middleware behind the
  -- authentication, whatever schemes are configured and whatever their validators would say.
  pub bare_request_stops :
      (fuel : ℕ) (r : Run Request)
      → get_elem? c.pipeline r.current_index ≡ some (auth_middleware m)
      → IsBare m r.exchange.ctx
      → is_blocked c r ≡ false
      → past_sync_deadline c r ≡ false
      → ((execute_next_sync c (suc fuel) r).invoked ≡ r.invoked ++ r.current_index ∷ [])
        × ((execute_next_sync c (suc fuel) r).exchange.res.status ≡ 401)
  unfolding auth_middleware execute_next_sync call_sync
  bare_request_stops fuel r q bare free early =
      let e = try_schemes-bare m m.schemes r.exchange.ctx bare in
      (
        silent_middleware_stops c fuel r (auth_middleware m) q
            (auth_code-IsSilentOn m r.exchange (rw e)) refl free early,
        rw (free, q, early) (refused_status (execute_next_sync c fuel) r.current_index _ e),
      )
