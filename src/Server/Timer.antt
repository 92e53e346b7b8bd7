-- ===== src/Server/Timer.antt =====
-- `TimerBucket` of src/server/timer_manager.cpp. The clock is an argument, a callback is known by the
-- id of its task and by what it cancels in its bucket, and a bucket lists the ids of the tasks it ran.
-- A callback that stops the timers, or throws what is no `std::exception`, is not modelled. What a thread does that locks the
-- bucket's mutex while it holds it is a value of its own: `std::mutex` cannot be locked again.
pub mod Pending
pub mod Laws
pub mod Deadlock
use foxhttp.Prelude.{
  ℕ, zero, suc, ◌+◌, ◌-◌, ◌*◌, ◌/◌, ◌%◌, ◌^◌, ◌≤◌, ◌<◌, ◌≡◌, refl, sym, ap, ◌∙◌, subst, ◌≢◌, ◌↔◌,
  ◌⊎◌, inl, inr, Bool, true, false, ◌&&◌, ◌||◌, not, Option, none, some, List, [], ◌∷◌, ◌++◌, map,
  append-nil, append_assoc, arith, ltb, leb, ◌==◌, if◌then◌else◌, ltb→lt, lt→ltb, leb→le, le→leb,
  ==_iff, ==_refl, ne→==, tests, Bool-cases, Option-cases, Result, ok, err, Result-cases, length,
  get_elem?, take, drop, is_empty, keep, length-append, take-append-drop, length-drop,
  take-length-append, drop-length-append, drop-add, drop-past, All, All-append, Bytes, codes, same,
  find, has, starts_with, Lacks, same_iff, same_refl, find-append, find-eq-none, find-lt-length,
  find-Lacks, find_split, drop_at, lookup, insert, lookup-insert, is_empty_of_lookup, lookup-nil,
  getlines, begin_line, has_suffix, is_space, is_alnum, hex_value, hex_digit, stream_hex, stoi_hex,
  hex_value-hex_digit, getlines-append, getlines-one, between, join, IsLine, getlines-join,
  drop_behind, is_empty-append, ne_of_same, to_string,
}
use foxhttp.Prelude.Sort.{sort_by}

-- `cancels` are the ids that the task's callback cancels in its bucket, in this order. It may also
-- throw a `std::exception`, which is printed and goes no further.
pub record Task : Type 0 where
  pub id : ℕ
  pub expiry_time : ℕ
  pub interval : ℕ
  pub is_repeating : Bool
  pub priority : ℕ
  pub cancels : List ℕ

pub record Bucket : Type 0 where
  pub is_running : Bool
  pub pending_tasks : List Task
  pub next_expiry_time : ℕ
  pub armed : Option ℕ
  pub executed : List ℕ

pub data Outcome (A : Type 0) : Type 0 where
  returned : A → Outcome A
  deadlock : Outcome A

-- `TimerTimePoint::max()`
abbrev pub time_max : ℕ
time_max = 2 ^ 63 - 1

abbrev pub new_bucket : Bucket
new_bucket = record {
  is_running = false;
  pending_tasks = [];
  next_expiry_time = time_max;
  armed = none;
  executed = [];
}

abbrev pub is_expired : ℕ → Task → Bool
is_expired now task = leb task.expiry_time now

-- `pending_tasks_.emplace`, which keeps a task that is there already.
abbrev pub contains : ℕ → List Task → Bool
contains id [] = false
contains id (t ∷ ts) = if t.id == id then true else contains id ts

abbrev pub emplace : Task → List Task → List Task
emplace task tasks = if contains task.id tasks then tasks else task ∷ tasks

unfoldable pub cancel_task : ℕ → Bucket → Bucket × Bool
cancel_task id b = (
  record b { pending_tasks = keep (λ t. not (t.id == id)) b.pending_tasks },
  contains id b.pending_tasks,
)

abbrev pub earliest : ℕ → List Task → ℕ
earliest least [] = least
earliest least (t ∷ ts) = earliest (if ltb t.expiry_time least then t.expiry_time else least) ts

-- `locked` says whether the calling thread holds the mutex.
unfoldable pub get_next_expiry : Bool → Bucket → Outcome (Option ℕ)
get_next_expiry true b = deadlock
get_next_expiry false b =
    returned (if is_empty b.pending_tasks then none else some (earliest time_max b.pending_tasks))

-- The calls of a callback. The bucket's mutex is free while it runs.
unfoldable pub cancel_each : List ℕ → Bucket → Bucket
unfolding cancel_task
cancel_each [] b = b
cancel_each (id ∷ ids) b = cancel_each ids (cancel_task id b).0

-- An expired task is run, and put back for its next time if it repeats, also where its own callback
-- has cancelled it.
abbrev pub put_back : Task → Bucket → Bucket
put_back t b =
    let next : Task = record t { expiry_time = t.expiry_time + t.interval } in
    record b {
      pending_tasks = if t.is_repeating then emplace next b.pending_tasks else b.pending_tasks;
    }

unfoldable pub run_task : Task → Bucket → Bucket
unfolding cancel_each
run_task t b = put_back t (cancel_each t.cancels (record b { executed = b.executed ++ t.id ∷ [] }))

unfoldable pub run_tasks : List Task → Bucket → Bucket
unfolding run_task
run_tasks [] b = b
run_tasks (t ∷ ts) b = run_tasks ts (run_task t b)

abbrev pub by_priority : Task → Task → Bool
by_priority a b = ltb b.priority a.priority

abbrev pub expired_tasks : ℕ → Bucket → List Task
expired_tasks now b = sort_by by_priority (keep (is_expired now) b.pending_tasks)

unfoldable pub process_expired_tasks : ℕ → Bucket → Bucket
unfolding run_tasks
process_expired_tasks now b =
    run_tasks (expired_tasks now b)
      (record b { pending_tasks = keep (λ t. not (is_expired now t)) b.pending_tasks })

unfoldable pub start_timer : Bool → ℕ → Bucket → Outcome Bucket
unfolding get_next_expiry process_expired_tasks
start_timer locked now b = elim (get_next_expiry locked b) [
  | deadlock ↦ deadlock
  | returned none ↦ returned b
  | returned (some next) ↦
      returned
        (if leb next now then process_expired_tasks now b else record b { armed = some next })
]

unfoldable pub reschedule_timer : Bool → ℕ → Bucket → Outcome Bucket
unfolding start_timer
reschedule_timer locked now b = start_timer locked now (record b { armed = none })

-- `add_task` holds the mutex until it returns.
unfoldable pub add_task : Task → ℕ → Bucket → Outcome (Bucket × Bool)
unfolding reschedule_timer
add_task task now b =
    let added : Bucket = record b { pending_tasks = emplace task b.pending_tasks } in
    if not b.is_running
    then returned (b, false)
    else if ltb task.expiry_time b.next_expiry_time
    then elim (reschedule_timer true now added) [
      | deadlock ↦ deadlock
      | returned after ↦ returned (after, true)
    ]
    else returned (added, true)

unfoldable pub start : ℕ → Bucket → Outcome Bucket
unfolding start_timer
start now b =
    if b.is_running then returned b else start_timer false now (record b { is_running = true })

unfoldable pub stop : Bucket → Bucket
stop b =
    if b.is_running then record b { is_running = false; armed = none; pending_tasks = [] } else b

-- The timer's completion handler.
unfoldable pub timer_fires : ℕ → Bucket → Outcome Bucket
unfolding start_timer process_expired_tasks
timer_fires now b = elim b.armed [
  | none ↦ returned b
  | some time ↦
      if b.is_running && leb time now
      then start_timer false now (process_expired_tasks now (record b { armed = none }))
      else returned b
]
