-- ===== src/Middleware/Sync/Laws.antt =====
-- Which middlewares a synchronous run calls.
use foxhttp.Prelude.{
  ℕ, zero, suc, ◌+◌, ◌≤◌, ◌<◌, ◌≡◌, refl, sym, ap, ◌∙◌, subst, inl, inr, true, false, none, some,
  List, [], ◌∷◌, ◌++◌, append-nil, append_assoc, arith, Bool-cases, Option-cases, length, get_elem?,
  is_empty, All,
}
use foxhttp.Middleware.Code.{
  Exchange, Code, done, throw, write, wait, next, callback, decide, Middleware,
}
use foxhttp.Middleware.Pipeline.{
  Config, Run, is_blocked, reset_middleware_timer, try_finish_run, full_fuel,
}
use foxhttp.Middleware.Pipeline.Events.{fresh}
use foxhttp.Middleware.Pipeline.Silent.{IsSilent, IsSilentOn, IsSilent-IsSilentOn}
use foxhttp.Middleware.Sync.{run_sync, past_sync_deadline, call_sync, execute_next_sync, execute}

module _ {C : Type 0} (c : Config C) where
  silent_stays :
      (again : Run C → Run C) (i : ℕ) (code : Code C) (r : Run C)
      → IsSilentOn code r.exchange
      → (run_sync c again i code r).invoked ≡ r.invoked
  unfolding run_sync
  silent_stays again i done r h = ground arith
  silent_stays again i (throw e) r h = elim h [ ]
  silent_stays again i (write f k) r h =
      silent_stays again i k (record r { exchange = f r.exchange }) h
  silent_stays again i (wait d k) r h = silent_stays again i k (record r { now = r.now + d }) h
  silent_stays again i (next k) r h = elim h [ ]
  silent_stays again i (callback result message k) r h = elim h [ ]
  silent_stays again i (decide test a b) r h = elim (Bool-cases (test r.exchange)) [
    | inl e ↦ rw (e, run_sync) (silent_stays again i a r (h.0 e))
    | inr e ↦ rw (e, run_sync) (silent_stays again i b r (h.1 e))
  ]

  -- In a synchronous run a middleware that does not call `next` on the exchange at hand is the
  -- last one: the step that calls it calls none behind it.
  pub silent_middleware_stops :
      (fuel : ℕ) (r : Run C) (mw : Middleware C)
      → get_elem? c.pipeline r.current_index ≡ some mw
      → IsSilentOn mw.sync r.exchange
      → mw.should_execute r.exchange ≡ true
      → is_blocked c r ≡ false
      → past_sync_deadline c r ≡ false
      → (execute_next_sync c (suc fuel) r).invoked ≡ r.invoked ++ r.current_index ∷ []
  unfolding execute_next_sync call_sync
  silent_middleware_stops fuel r mw q silent runs free early =
      rw (free, q, early, runs)
        (silent_stays (execute_next_sync c fuel) r.current_index mw.sync _ silent)

  -- Code that calls `next` once, whatever it reads, and does not throw.
  abbrev pub Forwards : Code C → Type 0
  Forwards done = ⊥
  Forwards (throw e) = ⊥
  Forwards (write f k) = Forwards k
  Forwards (wait d k) = Forwards k
  Forwards (next k) = IsSilent k
  Forwards (callback result message k) = Forwards k
  Forwards (decide test a b) = Forwards a × Forwards b

  -- Two runs at the same place, neither of them hindered.
  record IsAt (i : ℕ) (invoked : List ℕ) (r : Run C) : Type 0 where
    pub index : r.current_index ≡ i
    pub calls : r.invoked ≡ invoked
    pub free : is_blocked c r ≡ false

  run_sync-Forwards :
      (again : Run C → Run C) (i j : ℕ) (invoked after : List ℕ)
      → ((r : Run C) → IsAt j invoked r → (again r).invoked ≡ after)
      → (code : Code C) (r : Run C) → Forwards code
      → IsAt j invoked r
      → (run_sync c again i code r).invoked ≡ after
  unfolding run_sync
  run_sync-Forwards again i j invoked after ih done r f a = elim f [ ]
  run_sync-Forwards again i j invoked after ih (throw e) r f a = elim f [ ]
  run_sync-Forwards again i j invoked after ih (write g k) r f a =
      run_sync-Forwards again i j invoked after ih k (record r { exchange = g r.exchange }) f
        (record { index = a.index; calls = a.calls; free = a.free })
  run_sync-Forwards again i j invoked after ih (wait d k) r f a =
      run_sync-Forwards again i j invoked after ih k (record r { now = r.now + d }) f
        (record { index = a.index; calls = a.calls; free = a.free })
  run_sync-Forwards again i j invoked after ih (next k) r f a =
      silent_stays again i k (again (reset_middleware_timer c r))
        (IsSilent-IsSilentOn k (again (reset_middleware_timer c r)).exchange f)
      ∙ ih (reset_middleware_timer c r) (record { index = a.index; calls = a.calls; free = a.free })
  run_sync-Forwards again i j invoked after ih (callback result message k) r f a =
      run_sync-Forwards again i j invoked after ih k r f a
  run_sync-Forwards again i j invoked after ih (decide test a b) r f h =
      elim (Bool-cases (test r.exchange)) [
        | inl e ↦ rw (e, run_sync) (run_sync-Forwards again i j invoked after ih a r f.0 h)
        | inr e ↦ rw (e, run_sync) (run_sync-Forwards again i j invoked after ih b r f.1 h)
      ]

  -- `count` indices from `i` on.
  abbrev pub indices : ℕ → ℕ → List ℕ
  indices i zero = []
  indices i (suc n) = i ∷ indices (suc i) n

  abbrev pub IsForwarding : Middleware C → Type 0
  IsForwarding mw = Forwards mw.sync × ((x : Exchange C) → mw.should_execute x ≡ true)

  indices-append :
      (l : List ℕ) (i n : ℕ) → (l ++ i ∷ []) ++ indices (suc i) n ≡ l ++ indices i (suc n)
  indices-append l i n = append_assoc l (i ∷ []) (indices (suc i) n)

  drop-get :
      (l : List (Middleware C)) (i : ℕ) (mw : Middleware C)
      → get_elem? l i ≡ some mw
      → All IsForwarding l
      → IsForwarding mw × (i < length l)
  drop-get [] i mw e a = cc
  drop-get (x ∷ l) zero mw e (p, a) =
      let same : x ≡ mw = cc in (subst IsForwarding same p, omega arith)
  drop-get (x ∷ l) (suc i) mw e (p, a) = let (f, lt) = drop-get l i mw e a in (f, omega arith)

  get_none : (l : List (Middleware C)) (i : ℕ) → get_elem? l i ≡ none → length l ≤ i
  get_none [] i e = omega arith
  get_none (x ∷ l) zero e = cc
  get_none (x ∷ l) (suc i) e = omega (arith, get_none l i e)

  forwarding_calls_rest :
      (fuel i n : ℕ) (invoked : List ℕ)
      → c.global_timeout ≡ 0
      → All IsForwarding c.pipeline
      → i + n ≡ length c.pipeline
      → n < fuel
      → (r : Run C) → IsAt i invoked r
      → (execute_next_sync c fuel r).invoked ≡ invoked ++ indices i n
  unfolding execute_next_sync call_sync
  forwarding_calls_rest zero i n invoked g a e h r at = elim h [ ]
  forwarding_calls_rest (suc fuel) i zero invoked g a e h r at =
      elim (Option-cases (get_elem? c.pipeline r.current_index)) [
        | inl q ↦ rw (at.free, q) (at.calls ∙ sym (append-nil invoked))
        | inr (mw, q) ↦
            let (_, lt) = drop-get c.pipeline r.current_index mw q a in
            absurd (omega (arith, at.index))
      ]
  forwarding_calls_rest (suc fuel) i (suc m) invoked g a e h r at =
      elim (Option-cases (get_elem? c.pipeline r.current_index)) [
        | inl q ↦ absurd (omega (arith, get_none c.pipeline r.current_index q, at.index))
        | inr (mw, q) ↦
            let (plain, lt) = drop-get c.pipeline r.current_index mw q a in
            let early : past_sync_deadline c r ≡ false = ground arith in
            let called =
              run_sync-Forwards (execute_next_sync c fuel) r.current_index (suc i)
                (invoked ++ i ∷ []) (invoked ++ indices i (suc m))
                (λ s at'.
                  forwarding_calls_rest fuel (suc i) m (invoked ++ i ∷ []) g a (omega arith)
                    (omega arith) s at'
                  ∙ indices-append invoked i m)
                mw.sync
                (record r {
                  current_index = suc r.current_index;
                  invoked = r.invoked ++ r.current_index ∷ [];
                })
                plain.0
                (record {
                  index = ap suc at.index;
                  calls = cc (at.calls, at.index);
                  free = at.free;
                }) in
            rw (at.free, q, early, plain.1 r.exchange) called
      ]

  try_finish-invoked : (r : Run C) → (try_finish_run c r).0.invoked ≡ r.invoked
  unfolding try_finish_run
  try_finish-invoked r = ground arith

  -- With no deadline set, a pipeline whose middlewares all call `next` once and do not throw is run
  -- from the first to the last, each called once, in the order of the list.
  pub execute-indices :
      (x : Exchange C) (now : ℕ)
      → c.global_timeout ≡ 0
      → All IsForwarding c.pipeline
      → (execute c (fresh x now)).invoked ≡ indices 0 (length c.pipeline)
  unfolding execute
  execute-indices x now g a =
      let started : Run C = record (fresh x now) { registered = true; execution_start = now } in
      let ran =
        forwarding_calls_rest (full_fuel c) 0 (length c.pipeline) [] g a (omega arith) (omega arith)
          started (record { index = refl; calls = refl; free = refl }) in
      elim (Bool-cases (is_empty c.pipeline)) [
        | inl e ↦ rw e (ground arith)
        | inr e ↦ rw e (try_finish-invoked (execute_next_sync c (full_fuel c) started) ∙ ran)
      ]
