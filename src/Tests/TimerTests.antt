-- ===== src/Tests/TimerTests.antt =====
-- A bucket with two tasks that are due and one that is not, and a manager of two buckets.
use foxhttp.Prelude.{◌≡◌, refl, true, false, [], ◌∷◌, arith, err}
use foxhttp.Server.Timer.{
  Task, Bucket, returned, deadlock, new_bucket, process_expired_tasks, start, start_timer,
  get_next_expiry, run_tasks, run_task, cancel_each, cancel_task,
}
use foxhttp.Prelude.Sort.{sort_by}
use foxhttp.Server.Timer.Laws.{IsProcessed, process_expired_tasks-IsProcessed}
use foxhttp.Server.TimerManager.{
  TimerManager, new_manager, start_manager, schedule_impl, cancel, update_config, out_of_range,
}
use foxhttp.Server.TimerManager.Inv.{made_manager, started_manager}
use foxhttp.Server.TimerManager.Deadlock.{schedule_impl_deadlocks}

abbrev tick : Task
tick = record {
  id = 1;
  expiry_time = 10;
  interval = 5;
  is_repeating = true;
  priority = 1;
  cancels = 1 ∷ 3 ∷ [];
}

abbrev once : Task
once = record {
  id = 2;
  expiry_time = 12;
  interval = 0;
  is_repeating = false;
  priority = 3;
  cancels = [];
}

abbrev later : Task
later = record {
  id = 3;
  expiry_time = 90;
  interval = 0;
  is_repeating = false;
  priority = 0;
  cancels = [];
}

abbrev busy : Bucket
busy = record new_bucket { is_running = true; pending_tasks = tick ∷ once ∷ later ∷ [] }

process_expired_tasks-IsProcessed_example : IsProcessed 20 busy (process_expired_tasks 20 busy)
process_expired_tasks-IsProcessed_example = process_expired_tasks-IsProcessed 20 busy

abbrev running : Bucket
running = record new_bucket { is_running = true }

new_bucket_starts : start 0 new_bucket ≡ returned running
unfolding start start_timer get_next_expiry
new_bucket_starts = refl

abbrev running_manager : TimerManager
running_manager = record {
  bucket_count = 2;
  buckets = running ∷ running ∷ [];
  next_timer_id = 0;
  is_running = true;
}

new_manager_starts : start_manager 0 (new_manager 2) ≡ returned running_manager
unfolding start_manager new_manager start start_timer get_next_expiry
new_manager_starts = refl

schedule_impl_deadlocks_example : schedule_impl 10 5 [] true 1 0 running_manager ≡ deadlock
schedule_impl_deadlocks_example =
    schedule_impl_deadlocks running_manager 10 5 [] true 1 0
      (started_manager {m = new_manager 2} 0 (made_manager 2) new_manager_starts) refl (omega arith)
      (omega arith)

-- With a larger count in a new configuration, the index is past the buckets.
out_of_range_behind_update :
    cancel 3 (update_config 4 running_manager) ≡ (update_config 4 running_manager, err out_of_range)
unfolding cancel update_config
out_of_range_behind_update = refl

-- A repeating task whose callback cancels it waits again; another task that it cancels is gone.
cancelled_itself :
    (process_expired_tasks 20 busy).pending_tasks ≡ record tick { expiry_time = 15 } ∷ []
unfolding process_expired_tasks run_tasks run_task cancel_each cancel_task sort_by
cancelled_itself = refl
