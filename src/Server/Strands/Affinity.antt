-- ===== src/Server/Strands/Affinity.antt =====
-- The life of a strand pool: calls in any order.
use foxhttp.Prelude.{
  ℕ, zero, suc, ◌^◌, ◌<◌, ◌≡◌, refl, sym, ap, ◌∙◌, inl, inr, Bool, Option, none, some, List, [],
  ◌∷◌, arith, if◌then◌else◌, Bool-cases, Option-cases, length, get_elem?, is_empty, All, Bytes,
}
use foxhttp.Server.Strands.{
  LoadBalanceStrategy, StrandPoolConfig, StrandStats, StrandPool, Pick, strand, null, fault,
  Environment, ring_index, consistent_hash_strand, pick_at, next_strand, strand_for_session,
  checked, perform_health_check, set_load_balance_strategy, resize, update_config, new_pool,
}
use foxhttp.Server.Strands.Inv.{Inv, IsUsable, new_pool-Inv, resize-Inv, update_config-Inv}
use foxhttp.Server.Strands.Choice.{
  SamePool-Inv, IsPick, Draws, choose-Chooses, consistent_hash-Chooses, next_strand-IsPick,
}

-- The calls that change a pool.
pub data Call : Type 0 where
  asks : ℕ → Call
  asks_for_session : Bytes → Call
  checks_health : Option (ℕ → Bool) → Call
  sets_strategy : LoadBalanceStrategy → Call
  resizes : ℕ → Call
  updates : StrandPoolConfig → Call

abbrev pub after_call : Environment → Call → StrandPool → StrandPool
after_call env (asks thread) p = (next_strand env thread p).1
after_call env (asks_for_session session_id) p = (strand_for_session env session_id p).1
after_call env (checks_health answer) p = perform_health_check answer p
after_call env (sets_strategy strategy) p = set_load_balance_strategy strategy p
after_call env (resizes n) p = (resize env n p).1
after_call env (updates config) p = (update_config env config p).1

abbrev pub after_calls : Environment → List Call → StrandPool → StrandPool
after_calls env [] p = p
after_calls env (c ∷ cs) p = after_calls env cs (after_call env c p)

-- New configurations allow at least one strand.
abbrev pub IsUsableCall : Call → Type 0
IsUsableCall (updates config) = IsUsable config
IsUsableCall _ = Unit

-- Calls that leave the strands.
abbrev pub IsSteady : Call → Type 0
IsSteady (resizes n) = ⊥
IsSteady (updates config) = ⊥
IsSteady _ = Unit

length-checked :
    (n i : ℕ) (answer : ℕ → Bool) (stats : List StrandStats)
    → length (checked n i answer stats) ≡ length stats
unfolding checked
length-checked zero i answer stats = refl
length-checked (suc n) i answer [] = refl
length-checked (suc n) i answer (s ∷ stats) = omega (arith, length-checked n (suc i) answer stats)

-- What a call that leaves the strands keeps.
record SameStrands (p q : StrandPool) : Type 0 where
  strands : q.strands ≡ p.strands
  ring : q.hash_ring ≡ p.hash_ring

perform_health_check-Inv :
    (answer : Option (ℕ → Bool)) (p : StrandPool) → Inv p → Inv (perform_health_check answer p)
unfolding perform_health_check
perform_health_check-Inv none p v = v
perform_health_check-Inv (some answer) p v = record {
  usable = v.usable;
  same_sizes = length-checked p.current_size 0 answer p.strands_stats ∙ v.same_sizes;
  enough = v.enough;
  counted = v.counted;
  fits = v.fits;
  ring_inside = v.ring_inside;
  ring_full = v.ring_full;
}

set_strategy-Inv :
    (strategy : LoadBalanceStrategy) (p : StrandPool)
    → Inv p
    → Inv (set_load_balance_strategy strategy p)
set_strategy-Inv strategy p v = record {
  usable = v.usable;
  same_sizes = v.same_sizes;
  enough = v.enough;
  counted = v.counted;
  fits = v.fits;
  ring_inside = v.ring_inside;
  ring_full = v.ring_full;
}

-- The answer as a function of the strands and the ring.
abbrev hashed : ℕ → List ℕ → List (ℕ × ℕ) → Pick
hashed h strands ring = if is_empty strands then null else elim (ring_index h ring) [
  | none ↦ fault
  | some i ↦ elim (get_elem? strands i) [ none ↦ fault | some s ↦ strand s ]
]

consistent_hash_lem :
    (h : ℕ) (p : StrandPool) → (consistent_hash_strand h p).0 ≡ hashed h p.strands p.hash_ring
unfolding consistent_hash_strand pick_at
consistent_hash_lem h p = elim (Bool-cases (is_empty p.strands)) [
  | inl e ↦ rw (consistent_hash_strand, e)
  | inr e ↦ elim (Option-cases (ring_index h p.hash_ring)) [
    | inl q ↦ rw (consistent_hash_strand, e, q)
    | inr (i, q) ↦ rw (consistent_hash_strand, e, q, pick_at)
  ]
]

module _ (env : Environment) (draws : Draws env) where
  after_call-Inv : (c : Call) (p : StrandPool) → IsUsableCall c → Inv p → Inv (after_call env c p)
  unfolding strand_for_session
  after_call-Inv (asks thread) p u v = (next_strand-IsPick env draws thread p v).1
  after_call-Inv (asks_for_session session_id) p u v =
      SamePool-Inv p _ (consistent_hash-Chooses (env.hash session_id) p v).1 v
  after_call-Inv (checks_health answer) p u v = perform_health_check-Inv answer p v
  after_call-Inv (sets_strategy strategy) p u v = set_strategy-Inv strategy p v
  after_call-Inv (resizes n) p u v = resize-Inv env n p v
  after_call-Inv (updates config) p u v = update_config-Inv env config p u v

  pub after_calls-Inv :
      (cs : List Call) (p : StrandPool) → All IsUsableCall cs → Inv p → Inv (after_calls env cs p)
  after_calls-Inv [] p u v = v
  after_calls-Inv (c ∷ cs) p u v =
      after_calls-Inv cs (after_call env c p) u.1 (after_call-Inv c p u.0 v)

  -- Whatever is called on a pool whose configurations allow at least one strand, the next call of
  -- `next_strand` gives a strand of the pool at an index below its size, or a null pointer exactly
  -- where the pool has none: no strategy divides by zero or reads behind a vector.
  pub pool_never_faults :
      (config : StrandPoolConfig) (cs : List Call) (thread : ℕ)
      → IsUsable config
      → config.initial_size < 2 ^ 64
      → All IsUsableCall cs
      → IsPick
          (after_calls env cs (new_pool env config))
          (next_strand env thread (after_calls env cs (new_pool env config))).0
  pool_never_faults config cs thread usable fits u =
      (next_strand-IsPick env draws thread _
        (after_calls-Inv cs (new_pool env config) u (new_pool-Inv env config usable fits))).0

  steady_call :
      (c : Call) (p : StrandPool) → IsSteady c → Inv p → SameStrands p (after_call env c p)
  unfolding strand_for_session perform_health_check
  steady_call (asks thread) p s v =
      let same = (choose-Chooses env draws p.config.strategy thread p v).1 in
      record { strands = same.same_strands; ring = same.same_ring }
  steady_call (asks_for_session session_id) p s v =
      let same = (consistent_hash-Chooses (env.hash session_id) p v).1 in
      record { strands = same.same_strands; ring = same.same_ring }
  steady_call (checks_health none) p s v = record { strands = refl; ring = refl }
  steady_call (checks_health (some answer)) p s v = record { strands = refl; ring = refl }
  steady_call (sets_strategy strategy) p s v = record { strands = refl; ring = refl }
  steady_call (resizes n) p s v = elim s [ ]
  steady_call (updates config) p s v = elim s [ ]

  steady_usable : (c : Call) → IsSteady c → IsUsableCall c
  steady_usable (updates config) s = elim s [ ]
  steady_usable c s = tt

  same_pick :
      (session_id : Bytes) (p q : StrandPool)
      → SameStrands p q
      → (strand_for_session env session_id q).0 ≡ (strand_for_session env session_id p).0
  unfolding strand_for_session
  same_pick session_id p q s =
      let h = env.hash session_id in
      consistent_hash_lem h q
      ∙ ap (λ r. hashed h r q.hash_ring) s.strands
      ∙ ap (hashed h p.strands) s.ring
      ∙ sym (consistent_hash_lem h p)

  -- A session keeps its strand: until the pool is resized or configured anew, the same session is
  -- given the same strand, whatever strands are handed out, whichever strategy is set and whatever
  -- the health checks say.
  pub strand_for_session_stable :
      (session_id : Bytes) (cs : List Call) (p : StrandPool)
      → Inv p
      → All IsSteady cs
      → (strand_for_session env session_id (after_calls env cs p)).0
        ≡ (strand_for_session env session_id p).0
  strand_for_session_stable session_id [] p v s = refl
  strand_for_session_stable session_id (c ∷ cs) p v s =
      strand_for_session_stable session_id cs (after_call env c p)
        (after_call-Inv c p (steady_usable c s.0) v) s.1
      ∙ same_pick session_id p (after_call env c p) (steady_call c p s.0 v)
