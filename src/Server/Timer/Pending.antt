-- ===== src/Server/Timer/Pending.antt =====
-- The pending tasks of a bucket while the expired ones are run.
use foxhttp.Prelude.{
  All, ap, has, ◌||◌, ==_iff, ℕ, ◌+◌, ◌≡◌, refl, sym, ◌∙◌, ◌⊎◌, inl, inr, Bool, true, false, not,
  List, [], ◌∷◌, ◌++◌, map, append-nil, append_assoc, arith, ◌==◌, if◌then◌else◌, ==_refl,
  Bool-cases, keep,
}
use foxhttp.Prelude.Sort.{All-mono}
use foxhttp.Server.Timer.{
  cancel_task, cancel_each, Task, Bucket, contains, emplace, run_task, run_tasks,
}

contains-emplace :
    (id : ℕ) (t : Task) (ts : List Task) → contains id ts ≡ true → contains id (emplace t ts) ≡ true
contains-emplace id t ts h = elim (Bool-cases (contains t.id ts)) [
  | inl e ↦ rw e h
  | inr e ↦ elim (Bool-cases (t.id == id)) [ inl f ↦ rw (e, f) refl | inr f ↦ rw (e, f) h ]
]

contains-emplaced : (t : Task) (ts : List Task) → contains t.id (emplace t ts) ≡ true
contains-emplaced t ts = elim (Bool-cases (contains t.id ts)) [
  | inl e ↦ rw e e
  | inr e ↦ rw (e, ==_refl t.id) refl
]

-- Put back or not, what was pending stays pending.
contains-put_back :
    (again : Bool) (id : ℕ) (t : Task) (ts : List Task)
    → contains id ts ≡ true
    → contains id (if again then emplace t ts else ts) ≡ true
contains-put_back true id t ts h = contains-emplace id t ts h
contains-put_back false id t ts h = h

put_back_settles :
    (again : Bool) (t : Task) (ts : List Task)
    → (again ≡ false) ⊎ (contains t.id (if again then emplace t ts else ts) ≡ true)
put_back_settles true t ts = inr (contains-emplaced t ts)
put_back_settles false t ts = inl refl

contains-keep :
    (id other : ℕ) (ts : List Task)
    → (other == id) ≡ false
    → contains id ts ≡ true
    → contains id (keep (λ t. not (t.id == other)) ts) ≡ true
contains-keep id other [] n h = h
contains-keep id other (t ∷ ts) n h =
    ground (arith, ==_iff t.id other, ==_iff t.id id, ==_iff other id, contains-keep id other ts n)

cancel_each-executed : (ids : List ℕ) (b : Bucket) → (cancel_each ids b).executed ≡ b.executed
unfolding cancel_each cancel_task
cancel_each-executed [] b = refl
cancel_each-executed (id ∷ ids) b = cancel_each-executed ids (cancel_task id b).0

cancel_each-keeps :
    (ids : List ℕ) (b : Bucket) (id : ℕ)
    → has id ids ≡ false
    → contains id b.pending_tasks ≡ true
    → contains id (cancel_each ids b).pending_tasks ≡ true
unfolding cancel_each cancel_task
cancel_each-keeps [] b id n h = h
cancel_each-keeps (other ∷ ids) b id n h = elim (Bool-cases (other == id)) [
  | inl e ↦ absurd (ground arith)
  | inr e ↦
      cancel_each-keeps ids (cancel_task other b).0 id (ground arith)
        (contains-keep id other b.pending_tasks e h)
]

pub run_tasks-executed :
    (ts : List Task) (b : Bucket) → (run_tasks ts b).executed ≡ b.executed ++ map (λ t. t.id) ts
unfolding run_tasks run_task
run_tasks-executed [] b = sym (append-nil b.executed)
run_tasks-executed (t ∷ ts) b =
    run_tasks-executed ts (run_task t b)
    ∙ ap (λ l. l ++ map (λ u. u.id) ts) (cancel_each-executed t.cancels _)
    ∙ append_assoc b.executed (t.id ∷ []) (map (λ u. u.id) ts)

-- Whether the callback of one of the tasks cancels `id`.
abbrev pub is_cancelled : ℕ → List Task → Bool
is_cancelled id [] = false
is_cancelled id (t ∷ ts) = has id t.cancels || is_cancelled id ts

pub run_tasks-keeps :
    (ts : List Task) (b : Bucket) (id : ℕ)
    → is_cancelled id ts ≡ false
    → contains id b.pending_tasks ≡ true
    → contains id (run_tasks ts b).pending_tasks ≡ true
unfolding run_tasks run_task
run_tasks-keeps [] b id n h = h
run_tasks-keeps (t ∷ ts) b id n h = run_tasks-keeps ts (run_task t b) id (ground arith) (
    contains-put_back t.is_repeating id _ _ (
      cancel_each-keeps t.cancels (record b { executed = b.executed ++ t.id ∷ [] }) id
        (ground arith) h))

-- Each task is done, or waits again, or was cancelled by a callback that ran behind it.
abbrev pub IsSettled : List Task → List Task → Type 0
IsSettled pending [] = Unit
IsSettled pending (t ∷ ts) =
    ((t.is_repeating ≡ false) ⊎ ((contains t.id pending ≡ true) ⊎ (is_cancelled t.id ts ≡ true)))
    × IsSettled pending ts

pub run_tasks-IsSettled :
    (ts : List Task) (b : Bucket) → IsSettled (run_tasks ts b).pending_tasks ts
unfolding run_tasks run_task
run_tasks-IsSettled [] b = tt
run_tasks-IsSettled (t ∷ ts) b =
    let next : Task = record t { expiry_time = t.expiry_time + t.interval } in
    let called = cancel_each t.cancels (record b { executed = b.executed ++ t.id ∷ [] }) in
    (
      elim (put_back_settles t.is_repeating next called.pending_tasks) [
        | inl once ↦ inl once
        | inr waits ↦ elim (Bool-cases (is_cancelled t.id ts)) [
          | inl gone ↦ inr (inr gone)
          | inr stays ↦ inr (inl (run_tasks-keeps ts (run_task t b) t.id stays waits))
        ]
      ],
      run_tasks-IsSettled ts (run_task t b),
    )

-- One of the elements has the property.
abbrev pub HasOne : (Task → Type 0) → List Task → Type 0
HasOne P [] = ⊥
HasOne P (t ∷ ts) = P t ⊎ HasOne P ts

-- A repeating task at its next time.
abbrev pub IsNext : Task → Task → Type 0
IsNext u t = (t.is_repeating ≡ true) × (u ≡ record t { expiry_time = t.expiry_time + t.interval })

pub each_of : (ts : List Task) → All (λ u. HasOne (λ t. u ≡ t) ts) ts
each_of [] = tt
each_of (t ∷ ts) =
    (inl refl, All-mono (λ u. HasOne (λ v. u ≡ v) ts) _ ts (λ u h. inr h) (each_of ts))

module _ (P : Task → Type 0) where
  All-keep :
      (p : Task → Bool) (ts : List Task) → All P ts → All (λ u. P u × (p u ≡ true)) (keep p ts)
  All-keep p [] h = tt
  All-keep p (t ∷ ts) h = elim (Bool-cases (p t)) [
    | inl e ↦ rw e ((h.0, e), All-keep p ts h.1)
    | inr e ↦ rw e (All-keep p ts h.1)
  ]

  All-emplace : (t : Task) (ts : List Task) → P t → All P ts → All P (emplace t ts)
  All-emplace t ts h k = elim (Bool-cases (contains t.id ts)) [
    | inl e ↦ rw e k
    | inr e ↦ rw e (h, k)
  ]

  put_back-All :
      (again : Bool) (t : Task) (ts : List Task)
      → (again ≡ true → P t)
      → All P ts
      → All P (if again then emplace t ts else ts)
  put_back-All true t ts f h = All-emplace t ts (f refl) h
  put_back-All false t ts f h = h

not_among :
    (a id : ℕ) (ids : List ℕ) → not (a == id) ≡ true → has a ids ≡ false → has a (id ∷ ids) ≡ false
not_among a id ids n h = ground (arith, ==_iff a id, ==_iff id a)

-- What the calls of a callback leave was not cancelled by them.
cancel_each-All :
    (P : Task → Type 0) (ids : List ℕ) (b : Bucket)
    → All P b.pending_tasks
    → All (λ u. P u × (has u.id ids ≡ false)) (cancel_each ids b).pending_tasks
unfolding cancel_each cancel_task
cancel_each-All P [] b h = All-mono P _ b.pending_tasks (λ u p. (p, refl)) h
cancel_each-All P (id ∷ ids) b h =
    All-mono _ (λ u. P u × (has u.id (id ∷ ids) ≡ false)) _
      (λ u p. (p.0.0, not_among u.id id ids p.0.1 p.1))
      (cancel_each-All (λ u. P u × (not (u.id == id) ≡ true)) ids (cancel_task id b).0
        (All-keep P (λ t. not (t.id == id)) b.pending_tasks h))

-- What is pending after the tasks `ts` ran, where all that was pending before had the property `P`.
abbrev pub IsLeft : (Task → Type 0) → List Task → Task → Type 0
IsLeft P ts u = (P u × (is_cancelled u.id ts ≡ false)) ⊎ HasOne (IsNext u) ts

still_there :
    (P : Task → Type 0) (t : Task) (ts : List Task) (u : Task)
    → IsLeft (λ v. (P v × (has v.id t.cancels ≡ false)) ⊎ IsNext v t) ts u
    → IsLeft P (t ∷ ts) u
still_there P t ts u (inl (inl (p, h), k)) = inl (p, ground arith)
still_there P t ts u (inl (inr n, k)) = inr (inl n)
still_there P t ts u (inr n) = inr (inr n)

pub run_tasks-All :
    (P : Task → Type 0) (ts : List Task) (b : Bucket)
    → All P b.pending_tasks
    → All (IsLeft P ts) (run_tasks ts b).pending_tasks
unfolding run_tasks run_task
run_tasks-All P [] b h = All-mono P _ b.pending_tasks (λ u p. inl (p, refl)) h
run_tasks-All P (t ∷ ts) b h =
    let Q : Task → Type 0 = λ v. (P v × (has v.id t.cancels ≡ false)) ⊎ IsNext v t in
    let called = cancel_each t.cancels (record b { executed = b.executed ++ t.id ∷ [] }) in
    All-mono (IsLeft Q ts) _ _ (still_there P t ts) (
      run_tasks-All Q ts (run_task t b) (
        put_back-All Q t.is_repeating _ _ (λ e. inr (e, refl))
          (All-mono _ Q called.pending_tasks (λ u p. inl p)
            (cancel_each-All P t.cancels (record b { executed = b.executed ++ t.id ∷ [] }) h))))
