-- ===== src/Server/Strands.antt =====
-- `StrandPool` (src/server/strand_pool.cpp). A strand is a number; `std::hash`, the generator of
-- random numbers and what the code does with the floating-point load factor are parameters.
pub mod Inv
pub mod Choice
pub mod Affinity
pub mod Least
use foxhttp.Prelude.{
  ℕ, zero, suc, ◌+◌, ◌-◌, ◌*◌, ◌/◌, ◌%◌, ◌^◌, ◌≤◌, ◌<◌, ◌≡◌, refl, sym, ap, ◌∙◌, subst, ◌≢◌, ◌↔◌,
  ◌⊎◌, inl, inr, Bool, true, false, ◌&&◌, ◌||◌, not, Option, none, some, List, [], ◌∷◌, ◌++◌, map,
  append-nil, append_assoc, arith, ltb, leb, ◌==◌, if◌then◌else◌, ltb→lt, lt→ltb, leb→le, le→leb,
  ==_iff, ==_refl, ne→==, tests, Bool-cases, Option-cases, Result, ok, err, Result-cases, length,
  get_elem?, take, drop, is_empty, keep, length-append, take-append-drop, length-drop,
  take-length-append, drop-length-append, drop-add, drop-past, All, All-append, Bytes, codes, same,
  find, has, starts_with, Lacks, same_iff, same_refl, find-append, find-eq-none, find-lt-length,
  find-Lacks, find_split, drop_at, lookup, insert, lookup-insert, is_empty_of_lookup, lookup-nil,
  getlines, begin_line, has_suffix, is_space, is_alnum, hex_value, hex_digit, stream_hex, stoi_hex,
  hex_value-hex_digit, getlines-append, getlines-one, between, join, IsLine, getlines-join,
  drop_behind, is_empty-append, ne_of_same, to_string,
}
use foxhttp.Prelude.Sort.{sort_by}

pub data LoadBalanceStrategy : Type 0 where
  round_robin least_connections consistent_hash at_random weighted_round_robin : LoadBalanceStrategy

pub record StrandPoolConfig : Type 0 where
  pub initial_size : ℕ
  pub min_size : ℕ
  pub max_size : ℕ
  pub strategy : LoadBalanceStrategy

-- The counters that the pool itself reads or writes.
pub record StrandStats : Type 0 where
  pub total_requests : ℕ
  pub active_requests : ℕ
  pub completed_requests : ℕ
  pub is_healthy : Bool

abbrev pub new_stats : StrandStats
new_stats = record {
  total_requests = 0;
  active_requests = 0;
  completed_requests = 0;
  is_healthy = true;
}

pub record StrandPool : Type 0 where
  pub config : StrandPoolConfig
  pub strands : List ℕ
  pub strands_stats : List StrandStats
  pub current_size : ℕ
  pub round_robin_index : ℕ
  pub hash_ring : List (ℕ × ℕ)
  pub strands_made : ℕ

-- What a call returns: a strand, a null pointer, or nothing (a division by zero, or a read behind
-- the end of a vector).
pub data Pick : Type 0 where
  strand : ℕ → Pick
  null fault : Pick

-- `less_loaded` compares two load factors; `percent` is a load factor times 100, cut to an integer.
pub record Environment : Type 0 where
  pub hash : Bytes → ℕ
  pub draw : ℕ → ℕ
  pub less_loaded : StrandStats → StrandStats → Bool
  pub percent : StrandStats → ℕ

abbrev pub create_strand : StrandPool → StrandPool
create_strand p = record p {
  strands = p.strands ++ p.strands_made ∷ [];
  strands_stats = p.strands_stats ++ new_stats ∷ [];
  strands_made = p.strands_made + 1;
}

unfoldable pub create_strands : ℕ → StrandPool → StrandPool
create_strands zero p = p
create_strands (suc n) p = create_strands n (create_strand p)

abbrev pub erase {ℓ} : {A : Type ℓ} → ℕ → List A → List A
erase i [] = []
erase zero (x ∷ xs) = xs
erase (suc i) (x ∷ xs) = x ∷ erase i xs

unfoldable pub remove_strand : ℕ → StrandPool → StrandPool
remove_strand index p =
    if ltb index (length p.strands)
    then record p { strands = erase index p.strands; strands_stats = erase index p.strands_stats }
    else p

unfoldable pub remove_strands : List ℕ → StrandPool → StrandPool
unfolding remove_strand
remove_strands [] p = p
remove_strands (i ∷ is) p = remove_strands is (remove_strand i p)

-- Changes one element.
abbrev pub modify {ℓ} : {A : Type ℓ} → (A → A) → ℕ → List A → List A
modify f i [] = []
modify f zero (x ∷ xs) = f x ∷ xs
modify f (suc i) (x ∷ xs) = x ∷ modify f i xs

abbrev pub count_pick : StrandStats → StrandStats
count_pick s = record s {
  total_requests = (s.total_requests + 1) % 2 ^ 64;
  active_requests = (s.active_requests + 1) % 2 ^ 64;
}

abbrev pub update_strand_stats : ℕ → StrandPool → StrandPool
update_strand_stats index p = record p { strands_stats = modify count_pick index p.strands_stats }

-- `strands_[index]`, after the statistics are updated.
unfoldable pub pick_at : ℕ → StrandPool → Pick × StrandPool
pick_at index p = (
  elim (get_elem? p.strands index) [ none ↦ fault | some s ↦ strand s ],
  update_strand_stats index p,
)

unfoldable pub round_robin_strand : StrandPool → Pick × StrandPool
unfolding pick_at
round_robin_strand p =
    if is_empty p.strands
    then (null, p)
    else (let q = record p { round_robin_index = (p.round_robin_index + 1) % 2 ^ 64 } in
        if p.current_size == 0
        then (fault, q)
        else pick_at (p.round_robin_index % p.current_size) q)

-- The loop over the strands behind the first, up to `current_size`.
unfoldable pub least_from : ℕ → ℕ → ℕ → ℕ → List StrandStats → ℕ
least_from zero i best least stats = best
least_from (suc n) i best least [] = best
least_from (suc n) i best least (s ∷ stats) = elim (ltb s.active_requests least && s.is_healthy) [
  | true ↦ least_from n (suc i) i s.active_requests stats
  | false ↦ least_from n (suc i) best least stats
]

abbrev pub least_index : ℕ → List StrandStats → ℕ
least_index n [] = 0
least_index n (s ∷ stats) = least_from (n - 1) 1 0 s.active_requests stats

unfoldable pub least_connections_strand : StrandPool → Pick × StrandPool
unfolding least_from pick_at
least_connections_strand p =
    if is_empty p.strands then (null, p) else pick_at (least_index p.current_size p.strands_stats) p

-- `std::lower_bound` on the ring: the first entry whose hash is not less.
abbrev pub lower_bound : ℕ → List (ℕ × ℕ) → Option ℕ
lower_bound h [] = none
lower_bound h ((k, i) ∷ ring) = if ltb k h then lower_bound h ring else some i

unfoldable pub ring_index : ℕ → List (ℕ × ℕ) → Option ℕ
ring_index h ring = elim (lower_bound h ring) [
  | some i ↦ some i
  | none ↦ elim ring [ [] ↦ none | entry ∷ rest ↦ some entry.1 ]
]

unfoldable pub consistent_hash_strand : ℕ → StrandPool → Pick × StrandPool
unfolding ring_index pick_at
consistent_hash_strand h p =
    if is_empty p.strands
    then (null, p)
    else elim (ring_index h p.hash_ring) [ none ↦ (fault, p) | some i ↦ pick_at i p ]

module _ (env : Environment) where
  -- A draw between 0 and 2^64 - 1 where the pool counts no strand.
  unfoldable pub random_strand : StrandPool → Pick × StrandPool
  unfolding pick_at
  random_strand p =
      if is_empty p.strands
      then (null, p)
      else pick_at (env.draw ((p.current_size + 2 ^ 64 - 1) % 2 ^ 64)) p

  abbrev pub weight : StrandStats → ℕ
  weight s = if s.is_healthy then 100 - env.percent s else 0

  unfoldable pub total_weight : ℕ → List StrandStats → ℕ
  total_weight zero stats = 0
  total_weight (suc n) [] = 0
  total_weight (suc n) (s ∷ stats) = weight s + total_weight n stats

  -- The second loop: the first healthy strand at which the weights so far exceed the number drawn.
  unfoldable pub weighted_from : ℕ → ℕ → ℕ → ℕ → List StrandStats → Option ℕ
  weighted_from zero i drawn sum stats = none
  weighted_from (suc n) i drawn sum [] = none
  weighted_from (suc n) i drawn sum (s ∷ stats) =
      elim (s.is_healthy && ltb drawn (sum + weight s)) [
        | true ↦ some i
        | false ↦ weighted_from n (suc i) drawn (sum + weight s) stats
      ]

  unfoldable pub weightedround_robin_strand : StrandPool → Pick × StrandPool
  unfolding total_weight weighted_from
  weightedround_robin_strand p =
      let total = total_weight p.current_size p.strands_stats in
      if is_empty p.strands
      then (null, p)
      else if total == 0
      then round_robin_strand p
      else elim (weighted_from p.current_size 0 (env.draw (total - 1)) 0 p.strands_stats) [
        | some i ↦ pick_at i p
        | none ↦ round_robin_strand p
      ]

  -- The hash of the calling thread's id is an argument.
  unfoldable pub choose : LoadBalanceStrategy → ℕ → StrandPool → Pick × StrandPool
  choose round_robin thread p = round_robin_strand p
  choose least_connections thread p = least_connections_strand p
  choose consistent_hash thread p = consistent_hash_strand thread p
  choose at_random thread p = random_strand p
  choose weighted_round_robin thread p = weightedround_robin_strand p

  abbrev pub next_strand : ℕ → StrandPool → Pick × StrandPool
  next_strand thread p = choose p.config.strategy thread p

  unfoldable pub strand_for_session : Bytes → StrandPool → Pick × StrandPool
  unfolding consistent_hash_strand
  strand_for_session session_id p = consistent_hash_strand (env.hash session_id) p

  abbrev pub virtual_node : ℕ → ℕ → Bytes
  virtual_node i j = codes "strand_" ++ (to_string i ++ (codes "_" ++ to_string j))

  -- The nodes of one strand, and of the strands below `n`.
  unfoldable pub nodes_of : ℕ → ℕ → List (ℕ × ℕ)
  nodes_of i zero = []
  nodes_of i (suc j) = nodes_of i j ++ (env.hash (virtual_node i j), i) ∷ []

  unfoldable pub all_nodes : ℕ → List (ℕ × ℕ)
  unfolding nodes_of
  all_nodes zero = []
  all_nodes (suc i) = all_nodes i ++ nodes_of i 100

  abbrev pub pair_before : ℕ × ℕ → ℕ × ℕ → Bool
  pair_before a b = ltb a.0 b.0 || ((a.0 == b.0) && ltb a.1 b.1)

  unfoldable pub update_consistent_hash_ring : StrandPool → StrandPool
  unfolding all_nodes sort_by
  update_consistent_hash_ring p = record p {
    hash_ring = sort_by pair_before (all_nodes p.current_size);
  }

  -- The constructor, with `initialize`.
  unfoldable pub new_pool : StrandPoolConfig → StrandPool
  unfolding create_strands update_consistent_hash_ring
  new_pool config =
      let p = create_strands config.initial_size (record {
        config = config;
        strands = [];
        strands_stats = [];
        current_size = 0;
        round_robin_index = 0;
        hash_ring = [];
        strands_made = 0;
      }) in
      update_consistent_hash_ring (record p { current_size = config.initial_size })

  -- The indices in the order of their load factors.
  abbrev pub numbered : ℕ → List StrandStats → List (ℕ × StrandStats)
  numbered i [] = []
  numbered i (s ∷ stats) = (i, s) ∷ numbered (suc i) stats

  unfoldable pub by_load : StrandPool → List ℕ
  unfolding sort_by
  by_load p =
      map (λ (e : ℕ × StrandStats). e.0)
        (sort_by (λ a b. env.less_loaded a.1 b.1)
          (numbered 0 (take p.current_size p.strands_stats)))

  -- `false` with the pool that is left behind is the exception.
  unfoldable pub resize : ℕ → StrandPool → Bool × StrandPool
  unfolding create_strands remove_strands by_load update_consistent_hash_ring
  resize new_size p =
      if ltb new_size p.config.min_size || ltb p.config.max_size new_size
      then (false, p)
      else if new_size == p.current_size
      then (true, p)
      else (let q =
            if ltb p.current_size new_size
            then create_strands (new_size - p.current_size) p
            else remove_strands (take (p.current_size - new_size) (by_load p)) p in
          (true, update_consistent_hash_ring (record q { current_size = new_size })))

  unfoldable pub update_config : StrandPoolConfig → StrandPool → Bool × StrandPool
  unfolding resize
  update_config new_config p =
      let q = record p { config = new_config } in
      if new_config.initial_size == p.current_size
      then (true, q)
      else resize new_config.initial_size q

abbrev pub set_load_balance_strategy : LoadBalanceStrategy → StrandPool → StrandPool
set_load_balance_strategy strategy p = record p { config = record p.config { strategy = strategy } }

-- `perform_health_check_internal`, with the answers of the callback, where one is set.
unfoldable pub checked : ℕ → ℕ → (ℕ → Bool) → List StrandStats → List StrandStats
checked zero i answer stats = stats
checked (suc n) i answer [] = []
checked (suc n) i answer (s ∷ stats) =
    record s { is_healthy = answer i } ∷ checked n (suc i) answer stats

unfoldable pub perform_health_check : Option (ℕ → Bool) → StrandPool → StrandPool
unfolding checked
perform_health_check none p = p
perform_health_check (some answer) p = record p {
  strands_stats = checked p.current_size 0 answer p.strands_stats;
}
