-- ===== src/Client/Pool.antt =====
-- `Connection` and `ConnectionPool` of src/client/connection_pool.cpp. The state of the sockets and
-- the clock are arguments of the calls; the counters are `std::size_t`, of 64 bits.
pub mod Laws
use foxhttp.Prelude.{
  ℕ, zero, suc, ◌+◌, ◌-◌, ◌*◌, ◌/◌, ◌%◌, ◌^◌, ◌≤◌, ◌<◌, ◌≡◌, refl, sym, ap, ◌∙◌, subst, ◌≢◌, ◌↔◌,
  ◌⊎◌, inl, inr, Bool, true, false, ◌&&◌, ◌||◌, not, Option, none, some, List, [], ◌∷◌, ◌++◌, map,
  append-nil, append_assoc, arith, ltb, leb, ◌==◌, if◌then◌else◌, ltb→lt, lt→ltb, leb→le, le→leb,
  ==_iff, ==_refl, ne→==, tests, Bool-cases, Option-cases, Result, ok, err, Result-cases, length,
  get_elem?, take, drop, is_empty, keep, length-append, take-append-drop, length-drop,
  take-length-append, drop-length-append, drop-add, drop-past, All, All-append, Bytes, codes, same,
  find, has, starts_with, Lacks, same_iff, same_refl, find-append, find-eq-none, find-lt-length,
  find-Lacks, find_split, drop_at, lookup, insert, lookup-insert, is_empty_of_lookup, lookup-nil,
  to_string,
}

pub record Connection : Type 0 where
  pub id : ℕ
  pub in_use : Bool
  pub last_activity : ℕ

pub record Pool : Type 0 where
  pub max_size : ℕ
  pub idle_timeout : ℕ
  pub pools : List (Bytes × List Connection)
  pub total_connections : ℕ
  pub active_connections : ℕ

unfoldable pub new_pool : ℕ → ℕ → Pool
new_pool max_size idle_timeout = record {
  max_size = max_size;
  idle_timeout = idle_timeout;
  pools = [];
  total_connections = 0;
  active_connections = 0;
}

abbrev pub size_mod : ℕ
size_mod = 2 ^ 64

-- `++n` and `--n`, which wrap.
abbrev pub increment : ℕ → ℕ
increment n = (n + 1) % size_mod

abbrev pub decrement : ℕ → ℕ
decrement n = (n + size_mod - 1) % size_mod

abbrev pub mark_in_use : ℕ → Connection → Connection
mark_in_use now conn = record conn { in_use = true; last_activity = now }

abbrev pub mark_idle : ℕ → Connection → Connection
mark_idle now conn = record conn { in_use = false; last_activity = now }

unfoldable pub make_key : Bytes → ℕ → Bytes
make_key host port = host ++ (codes ":" ++ to_string port)

-- `pools_[key]`, which makes the entry where there is none.
abbrev pub queue_of : Bytes → Pool → List Connection
queue_of key p = elim (lookup key p.pools) [ none ↦ [] | some queue ↦ queue ]

abbrev pub set_queue : Bytes → List Connection → Pool → Pool
set_queue key queue p = record p { pools = insert key queue p.pools }

module _ (alive : Connection → Bool) (now : ℕ) where
  -- The loop of `acquire`: the first live connection, what stands behind it, and the count of all.
  unfoldable pub take_live : List Connection → ℕ → Option Connection × List Connection × ℕ
  take_live [] total = (none, [], total)
  take_live (conn ∷ queue) total =
      let next = take_live queue (decrement total) in
      if alive conn then (some (mark_in_use now conn), queue, total) else next

  unfoldable pub acquire : Pool → Bytes → ℕ → Pool × Option Connection
  unfolding take_live make_key
  acquire p host port =
      let key = make_key host port in
      let (found, queue, total) = take_live (queue_of key p) p.total_connections in
      let p' = record (set_queue key queue p) { total_connections = total } in
      elim found [
        | none ↦ (p', none)
        | some conn ↦ (record p' { active_connections = increment p.active_connections }, some conn)
      ]

  unfoldable pub release : Pool → Option Connection → Bytes → ℕ → Pool
  unfolding make_key
  release p none host port = p
  release p (some conn) host port =
      let key = make_key host port in
      let queue = queue_of key p in
      let freed = record (set_queue key queue p) {
        active_connections = decrement p.active_connections;
      } in
      let dropped = record freed { total_connections = decrement p.total_connections } in
      if not (alive conn)
      then dropped
      else if leb p.max_size p.total_connections
      then dropped
      else set_queue key (queue ++ mark_idle now conn ∷ []) freed

  abbrev pub is_expired : ℕ → Connection → Bool
  is_expired idle_timeout conn = ltb idle_timeout (now - conn.last_activity)

  unfoldable pub cleanup_pool : ℕ → List Connection → ℕ → List Connection × ℕ
  cleanup_pool idle_timeout [] total = ([], total)
  cleanup_pool idle_timeout (conn ∷ queue) total =
      let dropped = cleanup_pool idle_timeout queue (decrement total) in
      let (rest, left) = cleanup_pool idle_timeout queue total in
      if not (alive conn)
      then dropped
      else if is_expired idle_timeout conn
      then dropped
      else (conn ∷ rest, left)

  -- The loop over the pools; a pool that is left empty is taken out.
  unfoldable pub cleanup_pools :
      ℕ → List (Bytes × List Connection) → ℕ → List (Bytes × List Connection) × ℕ
  unfolding cleanup_pool
  cleanup_pools idle_timeout [] total = ([], total)
  cleanup_pools idle_timeout ((key, queue) ∷ pools) total =
      let (kept, left) = cleanup_pool idle_timeout queue total in
      let (rest, final) = cleanup_pools idle_timeout pools left in
      if is_empty kept then (rest, final) else ((key, kept) ∷ rest, final)

  unfoldable pub cleanup_expired : Pool → Pool
  unfolding cleanup_pools
  cleanup_expired p =
      let (pools, total) = cleanup_pools p.idle_timeout p.pools p.total_connections in
      record p { pools = pools; total_connections = total }

unfoldable pub clear : Pool → Pool
clear p = record p { pools = []; total_connections = 0; active_connections = 0 }

unfoldable pub size : Pool → ℕ
size p = p.total_connections

unfoldable pub active_count : Pool → ℕ
active_count p = p.active_connections
