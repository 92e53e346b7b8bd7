-- ===== src/Server/TimerManager/Inv.antt =====
-- The managers that the operations lead to, with their buckets.
use foxhttp.Prelude.{
  ℕ, zero, suc, ◌+◌, ◌%◌, ◌≡◌, refl, sym, ap, ◌∙◌, subst, ◌≢◌, ◌⊎◌, inl, inr, Bool, true, false,
  not, some, List, [], ◌∷◌, map, arith, ◌==◌, if◌then◌else◌, Bool-cases, Option-cases, Result, ok,
  err, length, get_elem?, All,
}
use foxhttp.Server.Timer.{
  Bucket, Outcome, returned, deadlock, cancel_task, add_task, start, stop, timer_fires,
}
use foxhttp.Server.Timer.Deadlock.{
  Reached, made, started, stopped, cancelled, fired, added, start-settings,
  timer_fires-SameSettings, add_task-SameSettings,
}
use foxhttp.Server.TimerManager.{
  TimerManager, ScheduleError, make_buckets, new_manager, start_all, start_manager, stop_manager,
  set_at, bucket_of, new_task, not_running, failed_to_schedule, out_of_range, schedule_impl, cancel,
}

-- The managers that the calls and the buckets' timers lead to, while the configuration stays.
pub data ReachedManager : TimerManager → Type 0 where
  made_manager : (bucket_count : ℕ) → ReachedManager (new_manager bucket_count)
  started_manager :
      {m after : TimerManager} (now : ℕ)
      → ReachedManager m
      → start_manager now m ≡ returned after
      → ReachedManager after
  stopped_manager : {m : TimerManager} → ReachedManager m → ReachedManager (stop_manager m)
  cancelled_timer : {m : TimerManager} (id : ℕ) → ReachedManager m → ReachedManager (cancel id m).0
  fired_timer :
      {m : TimerManager} {b after : Bucket} (i now : ℕ)
      → ReachedManager m
      → get_elem? m.buckets i ≡ some b
      → timer_fires now b ≡ returned after
      → ReachedManager (record m { buckets = set_at i after m.buckets })
  scheduled_timer :
      {m after : TimerManager} {result : Result ScheduleError ℕ} (when interval : ℕ)
      (cancels : List ℕ) (is_repeating : Bool) (priority now : ℕ)
      → ReachedManager m
      → schedule_impl when interval cancels is_repeating priority now m ≡ returned (after, result)
      → ReachedManager after

-- A bucket that runs when its manager does.
abbrev pub IsLed : Bool → Bucket → Type 0
IsLed running b = Reached b × (b.is_running ≡ running)

pub record Inv (m : TimerManager) : Type 0 where
  pub led : All (IsLed m.is_running) m.buckets
  pub counted : length m.buckets ≡ m.bucket_count

element_at :
    (P : Bucket → Type 0) (bs : List Bucket) (i : ℕ) (b : Bucket)
    → All P bs
    → get_elem? bs i ≡ some b
    → P b
element_at P [] i b h e = cc
element_at P (x ∷ bs) zero b h e = subst P (ground arith) h.0
element_at P (x ∷ bs) (suc i) b h e = element_at P bs i b h.1 e

All-set_at :
    (P : Bucket → Type 0) (i : ℕ) (b : Bucket) (bs : List Bucket)
    → P b
    → All P bs
    → All P (set_at i b bs)
All-set_at P i b [] p h = tt
All-set_at P zero b (x ∷ bs) p h = (p, h.1)
All-set_at P (suc i) b (x ∷ bs) p h = (h.0, All-set_at P i b bs p h.1)

length-set_at : (i : ℕ) (b : Bucket) (bs : List Bucket) → length (set_at i b bs) ≡ length bs
length-set_at i b [] = refl
length-set_at zero b (x ∷ bs) = refl
length-set_at (suc i) b (x ∷ bs) = ap suc (length-set_at i b bs)

set_at-Inv :
    (m : TimerManager) (i id : ℕ) (b : Bucket)
    → Inv m
    → IsLed m.is_running b
    → Inv (record m { buckets = set_at i b m.buckets; next_timer_id = id })
set_at-Inv m i id b v l = record {
  led = All-set_at (IsLed m.is_running) i b m.buckets l v.led;
  counted = length-set_at i b m.buckets ∙ v.counted;
}

make_buckets-IsLed : (n : ℕ) → All (IsLed false) (make_buckets n)
make_buckets-IsLed zero = tt
make_buckets-IsLed (suc n) = ((made, refl), make_buckets-IsLed n)

length-make_buckets : (n : ℕ) → length (make_buckets n) ≡ n
length-make_buckets zero = refl
length-make_buckets (suc n) = ap suc (length-make_buckets n)

Outcome-cases : {A : Type 0} (o : Outcome A) → ((a : A) × (o ≡ returned a)) ⊎ (o ≡ deadlock)
Outcome-cases (returned a) = inl (a, refl)
Outcome-cases deadlock = inr refl

or_else : {A : Type 0} → A → Outcome A → A
or_else a (returned b) = b
or_else a deadlock = a

returned-injective : {A : Type 0} {a b : A} → returned a ≡ returned b → a ≡ b
unfolding or_else
returned-injective {a = a} e = ap (or_else a) e

deadlock_not_returned : {A : Type 0} {a : A} (o : Outcome A) → o ≡ deadlock → o ≢ returned a
deadlock_not_returned o e q = cc

start_all-IsLed :
    (now : ℕ) (running : Bool) (bs afters : List Bucket)
    → All (IsLed running) bs
    → start_all now bs ≡ returned afters
    → All (IsLed true) afters × (length afters ≡ length bs)
start_all-IsLed now running [] afters h e =
    subst (λ a. All (IsLed true) a × (length a ≡ 0)) (returned-injective e) (tt, refl)
start_all-IsLed now running (b ∷ bs) afters h e = elim (Outcome-cases (start now b)) [
  | inr q ↦ absurd (deadlock_not_returned (start_all now (b ∷ bs)) (rw (start_all, q) refl) e)
  | inl (after, q) ↦ elim (Outcome-cases (start_all now bs)) [
    | inr p ↦ absurd (deadlock_not_returned (start_all now (b ∷ bs)) (rw (start_all, q, p) refl) e)
    | inl (more, p) ↦
        let whole : start_all now (b ∷ bs) ≡ returned (after ∷ more) = rw (start_all, q, p) refl in
        let (led, same_length) = start_all-IsLed now running bs more h.1 p in
        let here : IsLed true after = (started now h.0.0 q, (start-settings now b after q).1) in
        subst (λ a. All (IsLed true) a × (length a ≡ suc (length bs)))
          (returned-injective (sym whole ∙ e)) ((here, led), ap suc same_length)
  ]
]

stop-IsLed : (running : Bool) (b : Bucket) → IsLed running b → IsLed false (stop b)
unfolding stop
stop-IsLed running b h = (stopped h.0, ground arith)

map-stop-IsLed :
    (running : Bool) (bs : List Bucket)
    → All (IsLed running) bs
    → All (IsLed false) (map stop bs) × (length (map stop bs) ≡ length bs)
map-stop-IsLed running [] h = (tt, refl)
map-stop-IsLed running (b ∷ bs) h =
    let (led, same_length) = map-stop-IsLed running bs h.1 in
    ((stop-IsLed running b h.0, led), ap suc same_length)

start-Inv :
    (m after : TimerManager) (now : ℕ) → Inv m → start_manager now m ≡ returned after → Inv after
unfolding start_manager
start-Inv m after now v e = elim (Bool-cases m.is_running) [
  | inl q ↦
      let whole : start_manager now m ≡ returned m = rw q refl in
      subst Inv (returned-injective (sym whole ∙ e)) v
  | inr q ↦ elim (Outcome-cases (start_all now m.buckets)) [
    | inr p ↦ absurd (deadlock_not_returned (start_manager now m) (rw (q, p) refl) e)
    | inl (bs, p) ↦
        let whole : start_manager now m ≡ returned (record m { is_running = true; buckets = bs }) =
          rw (q, p) refl in
        let (led, same_length) = start_all-IsLed now m.is_running m.buckets bs v.led p in
        subst Inv (returned-injective (sym whole ∙ e))
          (record { led = led; counted = same_length ∙ v.counted })
  ]
]

stop-Inv : (m : TimerManager) → Inv m → Inv (stop_manager m)
unfolding stop_manager
stop-Inv m v = elim (Bool-cases m.is_running) [
  | inr q ↦ subst Inv (sym (rw q refl)) v
  | inl q ↦
      let (led, same_length) = map-stop-IsLed m.is_running m.buckets v.led in
      let halted : TimerManager = record m { is_running = false; buckets = map stop m.buckets } in
      let whole : stop_manager m ≡ halted = rw q refl in
      subst Inv (sym whole) (record { led = led; counted = same_length ∙ v.counted })
]

pub bucket_of-IsLed :
    (m : TimerManager) (id : ℕ) (b : Bucket)
    → Inv m
    → bucket_of id m ≡ some b
    → IsLed m.is_running b
bucket_of-IsLed m id b v e = elim (Bool-cases (m.bucket_count == 0)) [
  | inl q ↦ absurd (ground arith)
  | inr q ↦ element_at (IsLed m.is_running) m.buckets (id % m.bucket_count) b v.led (ground arith)
]

cancel-Inv : (m : TimerManager) (id : ℕ) → Inv m → Inv (cancel id m).0
unfolding cancel cancel_task
cancel-Inv m id v = elim (Option-cases (bucket_of id m)) [
  | inl q ↦
      let whole : cancel id m ≡ (m, err out_of_range) = rw (cancel, bucket_of, q) refl in
      subst (λ r. Inv r.0) (sym whole) v
  | inr (b, q) ↦
      let led = bucket_of-IsLed m id b v q in
      let i = id % m.bucket_count in
      let put : TimerManager = record m { buckets = set_at i (cancel_task id b).0 m.buckets } in
      let whole : cancel id m ≡ (put, ok (cancel_task id b).1) = rw (cancel, bucket_of, q) refl in
      subst (λ r. Inv r.0) (sym whole)
        (set_at-Inv m i m.next_timer_id (cancel_task id b).0 v (cancelled id led.0, led.1))
]

fired-Inv :
    (m : TimerManager) (b after : Bucket) (i now : ℕ)
    → Inv m
    → get_elem? m.buckets i ≡ some b
    → timer_fires now b ≡ returned after
    → Inv (record m { buckets = set_at i after m.buckets })
fired-Inv m b after i now v e q =
    let led = element_at (IsLed m.is_running) m.buckets i b v.led e in
    set_at-Inv m i m.next_timer_id after v
      (fired now led.0 q, (timer_fires-SameSettings now b after q).1 ∙ led.1)

where_running : {A : Type 0} (b : Bool) (x y : A) → b ≡ true → (if not b then x else y) ≡ y
where_running b x y e = rw e refl

schedule-Inv :
    (m after : TimerManager) (result : Result ScheduleError ℕ) (when interval : ℕ)
    (cancels : List ℕ) (is_repeating : Bool) (priority now : ℕ)
    → Inv m
    → schedule_impl when interval cancels is_repeating priority now m ≡ returned (after, result)
    → Inv after
unfolding schedule_impl
schedule-Inv m after result when interval cancels is_repeating priority now v e =
    let id = m.next_timer_id + 1 in
    let task = new_task id when interval cancels is_repeating priority in
    let counted : TimerManager = record m { next_timer_id = id } in
    let call = schedule_impl when interval cancels is_repeating priority now m in
    elim (Bool-cases m.is_running) [
      | inr off ↦
          let whole : call ≡ returned (m, err not_running) = rw (schedule_impl, off) refl in
          subst (λ r. Inv r.0) (returned-injective (sym whole ∙ e)) v
      | inl on ↦ elim (Option-cases (bucket_of id m)) [
        | inl q ↦
            let whole : call ≡ returned (counted, err out_of_range) =
              where_running m.is_running _ _ on ∙ rw q refl in
            subst (λ r. Inv r.0) (returned-injective (sym whole ∙ e))
              (record { led = v.led; counted = v.counted })
        | inr (b, q) ↦ elim (Outcome-cases (add_task task now b)) [
          | inr stuck ↦ absurd (
              deadlock_not_returned call (where_running m.is_running _ _ on ∙ rw (q, stuck) refl) e)
          | inl (r, p) ↦
              let led = bucket_of-IsLed m id b v q in
              let i = id % m.bucket_count in
              let put : TimerManager = record counted { buckets = set_at i r.0 m.buckets } in
              let whole : call ≡ returned (put, if r.1 then ok id else err failed_to_schedule) =
                where_running m.is_running _ _ on ∙ rw (q, p) refl in
              let kept = (add_task-SameSettings task now b r.0 r.1 p).1 in
              subst (λ r. Inv r.0) (returned-injective (sym whole ∙ e))
                (set_at-Inv m i id r.0 v (added task now led.0 p, kept ∙ led.1))
        ]
      ]
    ]

pub ReachedManager-Inv : (m : TimerManager) → ReachedManager m → Inv m
unfolding new_manager
ReachedManager-Inv m (made_manager n) = record {
  led = make_buckets-IsLed n;
  counted = length-make_buckets n;
}
ReachedManager-Inv m (started_manager {m = before} now r e) =
    start-Inv before m now (ReachedManager-Inv before r) e
ReachedManager-Inv m (stopped_manager {m = before} r) =
    stop-Inv before (ReachedManager-Inv before r)
ReachedManager-Inv m (cancelled_timer {m = before} id r) =
    cancel-Inv before id (ReachedManager-Inv before r)
ReachedManager-Inv m (fired_timer {m = before} {b = b} {after = after} i now r e q) =
    fired-Inv before b after i now (ReachedManager-Inv before r) e q
ReachedManager-Inv m
      (scheduled_timer {m = before} {result = result} when interval cancels is_repeating priority
        now r e) =
    schedule-Inv before m result when interval cancels is_repeating priority now
      (ReachedManager-Inv before r) e
