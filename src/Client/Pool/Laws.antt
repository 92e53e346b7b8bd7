-- ===== src/Client/Pool/Laws.antt =====
-- What the connection pool hands out and keeps, and what becomes of its counters.
use foxhttp.Prelude.{
  ℕ, zero, suc, ◌-◌, ◌<◌, ◌≡◌, refl, ap, ◌≢◌, inl, inr, Bool, true, false, ◌&&◌, not, Option, none,
  some, List, [], ◌∷◌, ◌++◌, arith, ltb, if◌then◌else◌, Bool-cases, Option-cases, keep, All, Bytes,
  same_iff, same_refl, lookup, insert, lookup-insert,
}
use foxhttp.Client.Pool.{
  Connection, Pool, new_pool, size_mod, decrement, mark_in_use, mark_idle, make_key, queue_of,
  take_live, acquire, release, is_expired, cleanup_pool, cleanup_expired, size, active_count,
}

-- `n` counted down `k` times.
pub fall : ℕ → ℕ → ℕ
fall zero n = n
fall (suc k) n = fall k (decrement n)

module _ (alive : Connection → Bool) (now : ℕ) where
  -- How the loop of `acquire` ends on a queue.
  pub data Taken (queue : List Connection) (found : Option Connection) (rest : List Connection)
      : Type 0 where
    taken :
        (dead : List Connection) (conn : Connection)
        → All (λ x. alive x ≡ false) dead
        → alive conn ≡ true
        → queue ≡ dead ++ conn ∷ rest
        → found ≡ some (mark_in_use now conn)
        → Taken queue found rest
    none_live : All (λ x. alive x ≡ false) queue → found ≡ none → rest ≡ [] → Taken queue found rest

  Taken-dead :
      (x : Connection) (queue : List Connection) (found : Option Connection)
      (rest : List Connection)
      → alive x ≡ false
      → Taken queue found rest
      → Taken (x ∷ queue) found rest
  Taken-dead x queue found rest d (taken dead conn a l e f) =
      taken (x ∷ dead) conn (d, a) l (ap (◌∷◌ x) e) f
  Taken-dead x queue found rest d (none_live a f e) = none_live (d, a) f e

  take_live-Taken :
      (queue : List Connection) (total : ℕ)
      → Taken queue (take_live alive now queue total).0 (take_live alive now queue total).1
  unfolding take_live
  take_live-Taken [] total = none_live tt refl refl
  take_live-Taken (x ∷ queue) total = elim (Bool-cases (alive x)) [
    | inl l ↦ rw l (taken [] x tt l refl refl)
    | inr d ↦ rw d (Taken-dead x queue _ _ d (take_live-Taken queue (decrement total)))
  ]

  abbrev live_of : Pool → Bytes → Option Connection × List Connection × ℕ
  live_of p key = take_live alive now (queue_of key p) p.total_connections

  acquire-found :
      (p : Pool) (host : Bytes) (port : ℕ)
      → (acquire alive now p host port).1 ≡ (live_of p (make_key host port)).0
  unfolding acquire
  acquire-found p host port = elim (Option-cases (live_of p (make_key host port)).0) [
    | inl e ↦ rw (e, acquire) refl
    | inr (conn, e) ↦ rw (e, acquire) refl
  ]

  acquire-pools :
      (p : Pool) (host : Bytes) (port : ℕ)
      → (acquire alive now p host port).0.pools
        ≡ insert (make_key host port) (live_of p (make_key host port)).1 p.pools
  unfolding acquire
  acquire-pools p host port = elim (Option-cases (live_of p (make_key host port)).0) [
    | inl e ↦ rw (e, acquire) refl
    | inr (conn, e) ↦ rw (e, acquire) refl
  ]

  queue_of-insert :
      (key : Bytes) (queue : List Connection) (p q : Pool)
      → q.pools ≡ insert key queue p.pools
      → queue_of key q ≡ queue
  queue_of-insert key queue p q e =
      ground (arith, lookup-insert key key queue p.pools, same_refl key)

  lookup-insert_other :
      (key other : Bytes) (queue : List Connection) (p q : Pool)
      → q.pools ≡ insert key queue p.pools
      → other ≢ key
      → lookup other q.pools ≡ lookup other p.pools
  lookup-insert_other key other queue p q e h =
      ground (arith, lookup-insert key other queue p.pools, same_iff key other)

  -- `acquire` takes the first live connection of its host and port and marks it in use; it drops the
  -- dead ones before it and keeps those behind it in order. It finds none exactly when none of them
  -- is alive.
  pub acquire-Taken :
      (p : Pool) (host : Bytes) (port : ℕ)
      → Taken
          (queue_of (make_key host port) p)
          (acquire alive now p host port).1
          (queue_of (make_key host port) (acquire alive now p host port).0)
  acquire-Taken p host port =
      let key = make_key host port in
      let after = (acquire alive now p host port).0 in
      rw (acquire-found p host port, queue_of-insert key _ p after (acquire-pools p host port))
        (take_live-Taken (queue_of key p) p.total_connections)

  -- `acquire` leaves the connections of every other host and port as they are.
  pub acquire-other_host :
      (p : Pool) (host : Bytes) (port : ℕ) (other : Bytes)
      → other ≢ make_key host port
      → lookup other (acquire alive now p host port).0.pools ≡ lookup other p.pools
  acquire-other_host p host port other different =
      let after = (acquire alive now p host port).0 in
      lookup-insert_other (make_key host port) other _ p after (acquire-pools p host port) different

  pub kept : ℕ → List Connection → List Connection
  kept idle_timeout = keep (λ conn. alive conn && not (is_expired alive now idle_timeout conn))

  -- How many of a queue a clean-up drops.
  pub dropped : ℕ → List Connection → ℕ
  dropped idle_timeout [] = 0
  dropped idle_timeout (x ∷ queue) =
      if alive x && not (is_expired alive now idle_timeout x)
      then dropped idle_timeout queue
      else suc (dropped idle_timeout queue)

  -- A clean-up keeps exactly the connections that are alive and not idle for too long, in order, and
  -- counts the total down once for each of the others.
  pub cleanup_pool-kept :
      (idle_timeout : ℕ) (queue : List Connection) (total : ℕ)
      → ((cleanup_pool alive now idle_timeout queue total).0 ≡ kept idle_timeout queue)
        × ((cleanup_pool alive now idle_timeout queue total).1
            ≡ fall (dropped idle_timeout queue) total)
  unfolding cleanup_pool kept fall dropped
  cleanup_pool-kept idle_timeout [] total = (refl, refl)
  cleanup_pool-kept idle_timeout (x ∷ queue) total = ground (
    arith,
    cleanup_pool-kept idle_timeout queue total,
    cleanup_pool-kept idle_timeout queue (decrement total),
  )

  -- `release` of a live connection keeps it, marked idle and behind the others of its host and port,
  -- exactly when the count of all connections is below the limit; otherwise, and where it is dead, the
  -- queue stays as it was.
  pub release-queue :
      (p : Pool) (conn : Connection) (host : Bytes) (port : ℕ)
      → queue_of (make_key host port) (release alive now p (some conn) host port) ≡ (
          if alive conn && ltb p.total_connections p.max_size
          then queue_of (make_key host port) p ++ mark_idle now conn ∷ []
          else queue_of (make_key host port) p)
  unfolding release
  release-queue p conn host port =
      let key = make_key host port in
      let queue = queue_of key p in
      ground (
        arith,
        lookup-insert key key queue p.pools,
        lookup-insert key key (queue ++ mark_idle now conn ∷ []) (insert key queue p.pools),
        same_refl key,
      )

  -- Releasing a connection that the pool did not hand out takes the count of active connections
  -- below zero: from 0 it wraps to the largest 64-bit number.
  pub release-active :
      (p : Pool) (conn : Connection) (host : Bytes) (port : ℕ)
      → p.active_connections ≡ 0
      → active_count (release alive now p (some conn) host port) ≡ size_mod - 1
  unfolding release active_count
  release-active p conn host port h = ground arith

-- The total is never counted up, so the first pooled connection that is cleaned up takes it below
-- zero: it wraps to the largest 64-bit number, which is above every limit.
pub cleanup_wraps_total :
    (alive later_alive : Connection → Bool) (now later max_size idle_timeout : ℕ)
    (conn : Connection) (host : Bytes) (port : ℕ)
    → 0 < max_size
    → alive conn ≡ true
    → idle_timeout < later - now
    → size (
        cleanup_expired later_alive later
          (release alive now (new_pool max_size idle_timeout) (some conn) host port))
      ≡ size_mod - 1
unfolding size cleanup_expired release insert lookup new_pool
cleanup_wraps_total alive later_alive now later max_size idle_timeout conn host port h l e =
    ground (arith, same_refl (make_key host port))
