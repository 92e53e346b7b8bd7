-- ===== src/Server/Timer/Laws.antt =====
-- Which tasks a bucket runs, and which it keeps.
use foxhttp.Prelude.{
  All, ==_refl, Bool-cases, ◌⊎◌, inl, inr, [], ◌∷◌, ℕ, ◌≤◌, ◌≡◌, refl, true, false, not, List, ◌++◌,
  map, arith, keep,
}
use mathlib.Core.List.{Perm}
use foxhttp.Prelude.Sort.{All-mono, IsOrdered, IsSorted-IsOrdered, sort_by-perm, sort_by-IsSorted}
use foxhttp.Server.Timer.{
  run_tasks, Task, Bucket, is_expired, contains, by_priority, expired_tasks, process_expired_tasks,
}
use foxhttp.Server.Timer.Pending.{
  run_tasks-executed, run_tasks-keeps, is_cancelled, IsSettled, run_tasks-IsSettled, HasOne,
  each_of, run_tasks-All, IsLeft,
}

by_priority_asym : (a b : Task) → by_priority a b ≡ true → by_priority b a ≡ false
by_priority_asym a b h = ground arith

by_priority_weak :
    (a b c : Task) → by_priority b a ≡ false → by_priority c b ≡ false → by_priority c a ≡ false
by_priority_weak a b c h k = ground arith

falling : (a b : Task) → by_priority b a ≡ false → b.priority ≤ a.priority
falling a b h = ground arith

contains-behind :
    (id : ℕ) (t : Task) (ts : List Task) → contains id ts ≡ true → contains id (t ∷ ts) ≡ true
contains-behind id t ts h = ground arith

contains-each : (ts : List Task) → All (λ t. contains t.id ts ≡ true) ts
contains-each [] = tt
contains-each (t ∷ ts) = (
  rw (==_refl t.id) refl,
  All-mono (λ u. contains u.id ts ≡ true) _ ts (λ u h. contains-behind u.id t ts h)
      (contains-each ts),
)

-- A task that waits, or that the callback of one of the tasks that ran cancelled.
abbrev pub IsKept : List Task → List Task → Task → Type 0
IsKept pending ran t = (contains t.id pending ≡ true) ⊎ (is_cancelled t.id ran ≡ true)

run_tasks-IsKept :
    (ts : List Task) (b : Bucket) (t : Task)
    → contains t.id b.pending_tasks ≡ true
    → IsKept (run_tasks ts b).pending_tasks ts t
run_tasks-IsKept ts b t h = elim (Bool-cases (is_cancelled t.id ts)) [
  | inl gone ↦ inr gone
  | inr stays ↦ inl (run_tasks-keeps ts b t.id stays h)
]

-- What one pass over the expired tasks does.
pub record IsProcessed (now : ℕ) (b after : Bucket) : Type 0 where
  pub ran : List Task
  pub all_expired : Perm ran (keep (is_expired now) b.pending_tasks)
  pub in_order : IsOrdered (λ a b. b.priority ≤ a.priority) ran
  pub logged : after.executed ≡ b.executed ++ map (λ t. t.id) ran
  -- What is pending was there, not expired and not cancelled, or is a repeating task that ran, at its
  -- next time.
  pub pending :
      All
        (IsLeft (λ u. HasOne (λ t. u ≡ t) (keep (λ t. not (is_expired now t)) b.pending_tasks)) ran)
        after.pending_tasks
  pub kept :
      All (IsKept after.pending_tasks ran) (keep (λ t. not (is_expired now t)) b.pending_tasks)
  pub settled : IsSettled after.pending_tasks ran

-- A pass runs exactly the tasks that are expired, each once and by falling priority; a repeating one
-- among them is pending again afterwards, unless the callback of a task that ran behind it cancels it.
-- A task that is not expired is still pending, unless such a callback cancels it.
-- Nothing else is pending than tasks that were, are not expired and were cancelled by no callback, and
-- repeating ones that ran, at their next time, an interval behind the last.
-- The callbacks may cancel tasks of the bucket and throw `std::exception`s, and do nothing else to the
-- bucket.
pub process_expired_tasks-IsProcessed :
    (now : ℕ) (b : Bucket) → IsProcessed now b (process_expired_tasks now b)
unfolding process_expired_tasks
process_expired_tasks-IsProcessed now b =
    let rest : Bucket = record b {
      pending_tasks = keep (λ t. not (is_expired now t)) b.pending_tasks;
    } in
    record {
      ran = expired_tasks now b;
      all_expired = sort_by-perm by_priority (keep (is_expired now) b.pending_tasks);
      in_order =
          IsSorted-IsOrdered by_priority (λ a b. b.priority ≤ a.priority) _ falling
            (sort_by-IsSorted by_priority by_priority_asym by_priority_weak
              (keep (is_expired now) b.pending_tasks));
      logged = run_tasks-executed (expired_tasks now b) rest;
      pending = run_tasks-All _ (expired_tasks now b) rest (each_of rest.pending_tasks);
      kept =
          All-mono (λ t. contains t.id rest.pending_tasks ≡ true) _ rest.pending_tasks
            (run_tasks-IsKept (expired_tasks now b) rest) (contains-each rest.pending_tasks);
      settled = run_tasks-IsSettled (expired_tasks now b) rest;
    }
