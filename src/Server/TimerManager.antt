-- ===== src/Server/TimerManager.antt =====
-- `TimerManager` of src/server/timer_manager.cpp, over its buckets. Its own two timers call
-- `perform_cleanup` and `report_statistics`, which change nothing.
pub mod Inv
pub mod Deadlock
use foxhttp.Prelude.{
  ℕ, zero, suc, ◌+◌, ◌-◌, ◌*◌, ◌/◌, ◌%◌, ◌^◌, ◌≤◌, ◌<◌, ◌≡◌, refl, sym, ap, ◌∙◌, subst, ◌≢◌, ◌↔◌,
  ◌⊎◌, inl, inr, Bool, true, false, ◌&&◌, ◌||◌, not, Option, none, some, List, [], ◌∷◌, ◌++◌, map,
  append-nil, append_assoc, arith, ltb, leb, ◌==◌, if◌then◌else◌, ltb→lt, lt→ltb, leb→le, le→leb,
  ==_iff, ==_refl, ne→==, tests, Bool-cases, Option-cases, Result, ok, err, Result-cases, length,
  get_elem?, take, drop, is_empty, keep, length-append, take-append-drop, length-drop,
  take-length-append, drop-length-append, drop-add, drop-past, All, All-append, Bytes, codes, same,
  find, has, starts_with, Lacks, same_iff, same_refl, find-append, find-eq-none, find-lt-length,
  find-Lacks, find_split, drop_at, lookup, insert, lookup-insert, is_empty_of_lookup, lookup-nil,
  getlines, begin_line, has_suffix, is_space, is_alnum, hex_value, hex_digit, stream_hex, stoi_hex,
  hex_value-hex_digit, getlines-append, getlines-one, between, join, IsLine, getlines-join,
  drop_behind, is_empty-append, ne_of_same, find_text, trim_front_by, trim_back_by, to_string,
}
use foxhttp.Server.Timer.{
  Task, Bucket, Outcome, returned, deadlock, new_bucket, cancel_task, add_task, start, stop,
}

pub record TimerManager : Type 0 where
  pub bucket_count : ℕ
  pub buckets : List Bucket
  pub next_timer_id : ℕ
  pub is_running : Bool

-- The two exceptions of `schedule_impl`, and an index that is not one of a bucket (no bucket at all,
-- or fewer than a later configuration says).
pub data ScheduleError : Type 0 where
  not_running failed_to_schedule out_of_range : ScheduleError

abbrev pub make_buckets : ℕ → List Bucket
make_buckets zero = []
make_buckets (suc n) = new_bucket ∷ make_buckets n

unfoldable pub new_manager : ℕ → TimerManager
new_manager bucket_count = record {
  bucket_count = bucket_count;
  buckets = make_buckets bucket_count;
  next_timer_id = 0;
  is_running = false;
}

abbrev pub start_all : ℕ → List Bucket → Outcome (List Bucket)
start_all now [] = returned []
start_all now (b ∷ bs) = elim (start now b) [
  | deadlock ↦ deadlock
  | returned after ↦ elim (start_all now bs) [
    | deadlock ↦ deadlock
    | returned afters ↦ returned (after ∷ afters)
  ]
]

unfoldable pub start_manager : ℕ → TimerManager → Outcome TimerManager
start_manager now m = if m.is_running then returned m else elim (start_all now m.buckets) [
  | deadlock ↦ deadlock
  | returned buckets ↦ returned (record m { is_running = true; buckets = buckets })
]

unfoldable pub stop_manager : TimerManager → TimerManager
unfolding stop
stop_manager m =
    if m.is_running then record m { is_running = false; buckets = map stop m.buckets } else m

abbrev pub set_at : ℕ → Bucket → List Bucket → List Bucket
set_at i b [] = []
set_at zero b (x ∷ xs) = b ∷ xs
set_at (suc i) b (x ∷ xs) = x ∷ set_at i b xs

-- `buckets_[id % config_.bucket_count]`
abbrev pub bucket_of : ℕ → TimerManager → Option Bucket
bucket_of id m = if m.bucket_count == 0 then none else get_elem? m.buckets (id % m.bucket_count)

abbrev pub new_task : ℕ → ℕ → ℕ → List ℕ → Bool → ℕ → Task
new_task id when interval cancels is_repeating priority = record {
  id = id;
  expiry_time = when;
  interval = interval;
  is_repeating = is_repeating;
  cancels = cancels;
  priority = priority;
}

unfoldable pub schedule_impl :
    ℕ → ℕ → List ℕ → Bool → ℕ → ℕ → TimerManager → Outcome (TimerManager × Result ScheduleError ℕ)
unfolding add_task
schedule_impl when interval cancels is_repeating priority now m =
    let id = m.next_timer_id + 1 in
    let task = new_task id when interval cancels is_repeating priority in
    let counted : TimerManager = record m { next_timer_id = id } in
    if not m.is_running then returned (m, err not_running) else elim (bucket_of id m) [
      | none ↦ returned (counted, err out_of_range)
      | some b ↦ elim (add_task task now b) [
        | deadlock ↦ deadlock
        | returned r ↦
            let put : TimerManager = record counted {
              buckets = set_at (id % m.bucket_count) r.0 m.buckets;
            } in
            returned (put, if r.1 then ok id else err failed_to_schedule)
      ]
    ]

unfoldable pub schedule_at :
    ℕ → List ℕ → ℕ → ℕ → TimerManager → Outcome (TimerManager × Result ScheduleError ℕ)
unfolding schedule_impl
schedule_at when cancels priority now m = schedule_impl when 0 cancels false priority now m

unfoldable pub schedule_after :
    ℕ → List ℕ → ℕ → ℕ → TimerManager → Outcome (TimerManager × Result ScheduleError ℕ)
unfolding schedule_at
schedule_after delay cancels priority now m = schedule_at (now + delay) cancels priority now m

unfoldable pub schedule_every :
    ℕ → List ℕ → ℕ → ℕ → TimerManager → Outcome (TimerManager × Result ScheduleError ℕ)
unfolding schedule_impl
schedule_every interval cancels priority now m =
    schedule_impl (now + interval) interval cancels true priority now m

unfoldable pub cancel : ℕ → TimerManager → TimerManager × Result ScheduleError Bool
unfolding cancel_task
cancel id m = elim (bucket_of id m) [
  | none ↦ (m, err out_of_range)
  | some b ↦ (
    record m { buckets = set_at (id % m.bucket_count) (cancel_task id b).0 m.buckets },
    ok (cancel_task id b).1,
  )
]

-- The buckets stay as they are.
unfoldable pub update_config : ℕ → TimerManager → TimerManager
update_config bucket_count m = record m { bucket_count = bucket_count }
