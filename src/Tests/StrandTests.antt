-- ===== src/Tests/StrandTests.antt =====
-- Strand pools of two strands.
use foxhttp.Prelude.{
  ℕ, ◌+◌, ◌*◌, ◌/◌, ◌≤◌, ◌≡◌, refl, some, List, [], ◌∷◌, arith, ltb, ◌==◌, length, get_elem?, codes,
}
use foxhttp.Server.Strands.{
  StrandPoolConfig, new_stats, StrandPool, strand, fault, Environment, round_robin, create_strands,
  new_pool, resize, remove_strands, by_load, next_strand, choose, round_robin_strand,
  strand_for_session, least_connections_strand, update_consistent_hash_ring,
}
use foxhttp.Prelude.Sort.{sort_by}
use foxhttp.Server.Strands.Inv.{new_pool-Inv}
use foxhttp.Server.Strands.Choice.{IsPick}
use foxhttp.Server.Strands.Least.{IsLeast, least_connections-IsLeast}
use foxhttp.Server.Strands.Affinity.{
  Call, asks, checks_health, resizes, after_calls, pool_never_faults, strand_for_session_stable,
}

abbrev two_strands : StrandPoolConfig
two_strands = record { initial_size = 2; min_size = 1; max_size = 4; strategy = round_robin }

-- Load factors are compared as fractions.
abbrev machine : Environment
machine = record {
  hash = λ name. length name;
  draw = λ n. n;
  less_loaded = λ a b.
      ltb (a.active_requests * (b.active_requests + b.completed_requests))
        (b.active_requests * (a.active_requests + a.completed_requests));
  percent = λ s. s.active_requests * 100 / (s.active_requests + s.completed_requests + 1);
}

draws : (n : ℕ) → machine.draw n ≤ n
draws n = omega arith

abbrev calls : List Call
calls = asks 0 ∷ asks 0 ∷ checks_health (some (λ i. i == 1)) ∷ resizes 1 ∷ []

pool_never_faults_example :
    IsPick
      (after_calls machine calls (new_pool machine two_strands))
      (next_strand machine 7 (after_calls machine calls (new_pool machine two_strands))).0
pool_never_faults_example =
    pool_never_faults machine draws two_strands calls 7 (omega arith) (omega arith)
      (tt, (tt, (tt, (tt, tt))))

abbrev steady : List Call
steady = asks 0 ∷ asks 0 ∷ checks_health (some (λ i. i == 1)) ∷ []

strand_for_session_stable_example :
    (strand_for_session machine
      (codes "s1")
      (after_calls machine steady (new_pool machine two_strands))).0
    ≡ (strand_for_session machine (codes "s1") (new_pool machine two_strands)).0
strand_for_session_stable_example =
    strand_for_session_stable machine draws (codes "s1") steady (new_pool machine two_strands)
      (new_pool-Inv machine two_strands (omega arith) (omega arith)) (tt, (tt, (tt, tt)))

abbrev busy : StrandPool
busy = new_pool machine two_strands

least_connections-IsLeast_example :
    (b : ℕ) × (s : ℕ) × IsLeast busy.strands_stats busy.current_size b
    × (get_elem? busy.strands b ≡ some s)
    × ((least_connections_strand busy).0 ≡ strand s)
unfolding new_pool create_strands
least_connections-IsLeast_example =
    least_connections-IsLeast busy (new_pool-Inv machine two_strands (omega arith) (omega arith))
      refl

-- A pool that may shrink to nothing keeps a strand, which the next call divides by zero for.
abbrev shrinkable : StrandPool
shrinkable = record {
  config = record two_strands { min_size = 0 };
  strands = 0 ∷ 1 ∷ [];
  strands_stats = new_stats ∷ new_stats ∷ [];
  current_size = 2;
  round_robin_index = 0;
  hash_ring = [];
  strands_made = 2;
}

shrunk_to_nothing : (next_strand machine 0 (resize machine 0 shrinkable).1).0 ≡ fault
unfolding choose round_robin_strand resize remove_strands by_load sort_by
    update_consistent_hash_ring
shrunk_to_nothing = refl
