-- ===== src/Server/TimerManager/Deadlock.antt =====
-- What scheduling through the manager comes to.
use foxhttp.Prelude.{
  ℕ, zero, suc, ◌+◌, ◌%◌, ◌<◌, ◌≡◌, refl, ◌∙◌, Bool, true, false, some, List, [], ◌∷◌, arith, ◌==◌,
  ne→==, length, get_elem?,
}
use foxhttp.Server.Timer.{Bucket, deadlock, time_max}
use foxhttp.Server.Timer.Deadlock.{add_task_deadlocks}
use foxhttp.Server.TimerManager.{TimerManager, bucket_of, new_task, schedule_impl}
use foxhttp.Server.TimerManager.Inv.{ReachedManager, Inv, bucket_of-IsLed, ReachedManager-Inv}

element_below :
    (bs : List Bucket) (i : ℕ) → i < length bs → (b : Bucket) × (get_elem? bs i ≡ some b)
element_below [] i h = absurd (omega (arith, h))
element_below (b ∷ bs) zero h = (b, refl)
element_below (b ∷ bs) (suc i) h = element_below bs i (omega (arith, h))

bucket_exists :
    (m : TimerManager) (id : ℕ)
    → Inv m
    → 0 < m.bucket_count
    → (b : Bucket) × (bucket_of id m ≡ some b)
bucket_exists m id v h =
    let positive : (m.bucket_count == 0) ≡ false = ne→== m.bucket_count 0 (omega (arith, h)) in
    let (b, e) = element_below m.buckets (id % m.bucket_count) (omega (arith, h, v.counted)) in
    (b, rw positive e)

-- In every manager that the calls and the timers lead to, with at least one bucket and the
-- configuration it was made with, scheduling a task for any time but the last one, once or
-- repeatedly, never returns while the manager is running: the calling thread locks a mutex that it
-- holds.
pub schedule_impl_deadlocks :
    (m : TimerManager) (when interval : ℕ) (cancels : List ℕ) (is_repeating : Bool)
    (priority now : ℕ)
    → ReachedManager m
    → m.is_running ≡ true
    → 0 < m.bucket_count
    → when < time_max
    → schedule_impl when interval cancels is_repeating priority now m ≡ deadlock
unfolding schedule_impl
schedule_impl_deadlocks m when interval cancels is_repeating priority now r on h early =
    let id = m.next_timer_id + 1 in
    let v = ReachedManager-Inv m r in
    let (b, q) = bucket_exists m id v h in
    let led = bucket_of-IsLed m id b v q in
    let task = new_task id when interval cancels is_repeating priority in
    rw (schedule_impl, on, q, add_task_deadlocks b task now led.0 (led.1 ∙ on) early) refl
