-- ===== src/Server/Timer/Deadlock.antt =====
-- What `add_task` comes to.
use foxhttp.Prelude.{
  ℕ, ◌<◌, ◌≡◌, refl, ◌∙◌, inl, inr, Bool, true, false, ◌&&◌, none, List, [], ◌∷◌, ◌++◌, arith, leb,
  Bool-cases, Option-cases, is_empty,
}
use foxhttp.Server.Timer.{
  Task, Bucket, returned, deadlock, time_max, new_bucket, cancel_task, cancel_each, run_task,
  run_tasks, expired_tasks, process_expired_tasks, start_timer, reschedule_timer, add_task, start,
  stop, timer_fires, get_next_expiry,
}

-- The buckets that the operations lead to.
pub data Reached : Bucket → Type 0 where
  made : Reached new_bucket
  started : {b after : Bucket} (now : ℕ) → Reached b → start now b ≡ returned after → Reached after
  stopped : {b : Bucket} → Reached b → Reached (stop b)
  cancelled : {b : Bucket} (id : ℕ) → Reached b → Reached (cancel_task id b).0
  fired :
      {b after : Bucket} (now : ℕ) → Reached b → timer_fires now b ≡ returned after → Reached after
  added :
      {b after : Bucket} {taken : Bool} (task : Task) (now : ℕ)
      → Reached b
      → add_task task now b ≡ returned (after, taken)
      → Reached after

-- What the work on tasks leaves alone.
abbrev pub SameSettings : Bucket → Bucket → Type 0
SameSettings b after =
    (after.next_expiry_time ≡ b.next_expiry_time) × (after.is_running ≡ b.is_running)

cancel_each-SameSettings : (ids : List ℕ) (b : Bucket) → SameSettings b (cancel_each ids b)
unfolding cancel_each cancel_task
cancel_each-SameSettings [] b = (refl, refl)
cancel_each-SameSettings (id ∷ ids) b = cancel_each-SameSettings ids (cancel_task id b).0

run_tasks-SameSettings : (ts : List Task) (b : Bucket) → SameSettings b (run_tasks ts b)
unfolding run_tasks run_task
run_tasks-SameSettings [] b = (refl, refl)
run_tasks-SameSettings (t ∷ ts) b =
    let (time, running) =
      cancel_each-SameSettings t.cancels (record b { executed = b.executed ++ t.id ∷ [] }) in
    let (times, runs) = run_tasks-SameSettings ts (run_task t b) in (times ∙ time, runs ∙ running)

process-SameSettings : (now : ℕ) (b : Bucket) → SameSettings b (process_expired_tasks now b)
unfolding process_expired_tasks
process-SameSettings now b = run_tasks-SameSettings (expired_tasks now b) _

start_timer-SameSettings :
    (locked : Bool) (now : ℕ) (b after : Bucket)
    → start_timer locked now b ≡ returned after
    → SameSettings b after
unfolding start_timer get_next_expiry
start_timer-SameSettings true now b after e = absurd (ground arith)
start_timer-SameSettings false now b after e = elim (Bool-cases (is_empty b.pending_tasks)) [
  | inl q ↦ (ground arith, ground arith)
  | inr q ↦
      let (same_time, same_run) = process-SameSettings now b in
      (ground (arith, same_time), ground (arith, same_run))
]

pub start-settings :
    (now : ℕ) (b after : Bucket)
    → start now b ≡ returned after
    → (after.next_expiry_time ≡ b.next_expiry_time) × (after.is_running ≡ true)
unfolding start
start-settings now b after e = elim (Bool-cases b.is_running) [
  | inl q ↦ (ground arith, ground arith)
  | inr q ↦ start_timer-SameSettings false now (record b { is_running = true }) after (ground arith)
]

pub timer_fires-SameSettings :
    (now : ℕ) (b after : Bucket) → timer_fires now b ≡ returned after → SameSettings b after
unfolding timer_fires
timer_fires-SameSettings now b after e = elim (Option-cases b.armed) [
  | inl q ↦ (ground arith, ground arith)
  | inr (time, q) ↦ elim (Bool-cases (b.is_running && leb time now)) [
    | inr early ↦ (ground arith, ground arith)
    | inl due ↦
        let done = process_expired_tasks now (record b { armed = none }) in
        let (t1, r1) = start_timer-SameSettings false now done after (ground arith) in
        let (t2, r2) = process-SameSettings now (record b { armed = none }) in (t1 ∙ t2, r1 ∙ r2)
  ]
]

pub add_task-SameSettings :
    (task : Task) (now : ℕ) (b after : Bucket) (taken : Bool)
    → add_task task now b ≡ returned (after, taken)
    → SameSettings b after
unfolding add_task reschedule_timer start_timer get_next_expiry
add_task-SameSettings task now b after taken e = (ground arith, ground arith)

-- No operation ever lowers `next_expiry_time`.
Reached-next_expiry : (b : Bucket) → Reached b → b.next_expiry_time ≡ time_max
unfolding cancel_task stop
Reached-next_expiry b made = refl
Reached-next_expiry after (started {b = b} now r e) =
    (start-settings now b after e).0 ∙ Reached-next_expiry b r
Reached-next_expiry after (stopped {b = b} r) = elim (Bool-cases b.is_running) [
  | inl q ↦ rw q (Reached-next_expiry b r)
  | inr q ↦ rw q (Reached-next_expiry b r)
]
Reached-next_expiry after (cancelled {b = b} id r) = Reached-next_expiry b r
Reached-next_expiry after (fired {b = b} now r e) =
    (timer_fires-SameSettings now b after e).0 ∙ Reached-next_expiry b r
Reached-next_expiry after (added {b = b} {taken = taken} task now r e) =
    (add_task-SameSettings task now b after taken e).0 ∙ Reached-next_expiry b r

-- In every bucket that the operations lead to, while it is running, `add_task` of a task with any
-- expiry time but the last one locks the mutex that it holds, and does not return.
pub add_task_deadlocks :
    (b : Bucket) (task : Task) (now : ℕ)
    → Reached b
    → b.is_running ≡ true
    → task.expiry_time < time_max
    → add_task task now b ≡ deadlock
unfolding add_task reschedule_timer start_timer get_next_expiry
add_task_deadlocks b task now r running early = ground (arith, Reached-next_expiry b r)
