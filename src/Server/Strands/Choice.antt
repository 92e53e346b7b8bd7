-- ===== src/Server/Strands/Choice.antt =====
-- Which strand a pool gives.
use foxhttp.Prelude.{
  ℕ, zero, suc, ◌+◌, ◌-◌, ◌%◌, ◌^◌, ◌≤◌, ◌<◌, ◌≡◌, refl, sym, ap, subst, ◌⊎◌, inl, inr, true, false,
  ◌&&◌, some, List, [], ◌∷◌, arith, ltb, ◌==◌, Bool-cases, Option-cases, length, get_elem?,
  is_empty, All,
}
use foxhttp.Server.Strands.{
  LoadBalanceStrategy, round_robin, least_connections, consistent_hash, at_random,
  weighted_round_robin, StrandStats, StrandPool, Pick, strand, null, Environment, count_pick,
  pick_at, round_robin_strand, least_from, least_index, least_connections_strand, lower_bound,
  ring_index, consistent_hash_strand, random_strand, weight, total_weight, weighted_from,
  weightedround_robin_strand, choose, next_strand,
}
use foxhttp.Server.Strands.Inv.{Inv, length-modify}

-- A strand of the pool at an index below its size, or a null pointer where the pool has none.
abbrev pub IsPick : StrandPool → Pick → Type 0
IsPick p pick =
    ((is_empty p.strands ≡ true) × (pick ≡ null))
    ⊎ ((i : ℕ) × (s : ℕ) × (i < p.current_size)
        × (get_elem? p.strands i ≡ some s)
        × (pick ≡ strand s))

pub get_elem?-lt {ℓ} :
    {A : Type ℓ} (i : ℕ) (xs : List A) → i < length xs → (a : A) × (get_elem? xs i ≡ some a)
get_elem?-lt i [] h = absurd (omega arith)
get_elem?-lt zero (x ∷ xs) h = (x, refl)
get_elem?-lt (suc i) (x ∷ xs) h = get_elem?-lt i xs (omega arith)

-- A pool that differs in counters only.
pub record SamePool (p q : StrandPool) : Type 0 where
  pub same_strands : q.strands ≡ p.strands
  pub same_size : q.current_size ≡ p.current_size
  pub same_ring : q.hash_ring ≡ p.hash_ring
  pub same_config : q.config ≡ p.config
  pub same_stats : length q.strands_stats ≡ length p.strands_stats

pub SamePool-Inv : (p q : StrandPool) → SamePool p q → Inv p → Inv q
SamePool-Inv p q s v = record {
  usable = rw s.same_config v.usable;
  same_sizes = omega (arith, s.same_stats, v.same_sizes, ap length s.same_strands);
  enough = omega (arith, v.enough, s.same_size, ap length s.same_strands);
  counted = λ full. omega (arith, s.same_size, v.counted (rw (← s.same_strands) full));
  fits = omega (arith, s.same_size, v.fits);
  ring_inside =
      subst (All (λ (e : ℕ × ℕ). e.1 < q.current_size)) (sym s.same_ring)
        (subst (λ n. All (λ (e : ℕ × ℕ). e.1 < n) p.hash_ring) (sym s.same_size) v.ring_inside);
  ring_full = λ h. rw s.same_ring (v.ring_full (omega (arith, s.same_size)));
}

pub pick_at_lem :
    (i : ℕ) (p : StrandPool) (s : ℕ) → get_elem? p.strands i ≡ some s → (pick_at i p).0 ≡ strand s
unfolding pick_at
pick_at_lem i p s e = rw (pick_at, e)

pick_at-IsPick : (i : ℕ) (p : StrandPool) → Inv p → i < p.current_size → IsPick p (pick_at i p).0
unfolding pick_at
pick_at-IsPick i p v h =
    let found = get_elem?-lt i p.strands (omega (arith, v.enough)) in
    inr (i, found.0, h, found.1, pick_at_lem i p found.0 found.1)

pick_at-SamePool : (i : ℕ) (p : StrandPool) → SamePool p (pick_at i p).1
unfolding pick_at
pick_at-SamePool i p = record {
  same_strands = refl;
  same_size = refl;
  same_ring = refl;
  same_config = refl;
  same_stats = length-modify count_pick i p.strands_stats;
}

least_from-lt :
    (n i best least : ℕ) (stats : List StrandStats) (size : ℕ)
    → best < size
    → i + n ≤ size
    → least_from n i best least stats < size
unfolding least_from
least_from-lt zero i best least stats size h k = h
least_from-lt (suc n) i best least [] size h k = h
least_from-lt (suc n) i best least (s ∷ stats) size h k =
    elim (Bool-cases (ltb s.active_requests least && s.is_healthy)) [
      | inl e ↦
          rw (least_from, e)
            (least_from-lt n (suc i) i s.active_requests stats size (omega arith) (omega arith))
      | inr e ↦ rw (least_from, e) (least_from-lt n (suc i) best least stats size h (omega arith))
    ]

pub least_index-lt :
    (size : ℕ) (stats : List StrandStats) → 0 < size → least_index size stats < size
least_index-lt size [] h = h
least_index-lt size (s ∷ stats) h =
    least_from-lt (size - 1) 1 0 s.active_requests stats size h (omega arith)

lower_bound-inside :
    (h n : ℕ) (ring : List (ℕ × ℕ)) (i : ℕ)
    → All (λ (e : ℕ × ℕ). e.1 < n) ring
    → lower_bound h ring ≡ some i
    → i < n
lower_bound-inside h n [] i a e = cc
lower_bound-inside h n ((k, j) ∷ ring) i a e = elim (Bool-cases (ltb k h)) [
  | inl l ↦ lower_bound-inside h n ring i a.1 (ground arith)
  | inr l ↦ ground arith
]

ring_index-inside :
    (h n : ℕ) (ring : List (ℕ × ℕ))
    → All (λ (e : ℕ × ℕ). e.1 < n) ring
    → is_empty ring ≡ false
    → (i : ℕ) × (ring_index h ring ≡ some i) × (i < n)
unfolding ring_index
ring_index-inside h n [] a full = cc
ring_index-inside h n (x ∷ ring) a full = elim (Option-cases (lower_bound h (x ∷ ring))) [
  | inl e ↦ (x.1, rw (ring_index, e), a.0)
  | inr (i, e) ↦ (i, rw (ring_index, e), lower_bound-inside h n (x ∷ ring) i a e)
]

module _ (env : Environment) where
  weighted_from-lt :
      (n i drawn sum : ℕ) (stats : List StrandStats) (r : ℕ)
      → weighted_from env n i drawn sum stats ≡ some r
      → r < i + n
  unfolding weighted_from
  weighted_from-lt zero i drawn sum stats r e = cc
  weighted_from-lt (suc n) i drawn sum [] r e = cc
  weighted_from-lt (suc n) i drawn sum (s ∷ stats) r e =
      elim (Bool-cases (s.is_healthy && ltb drawn (sum + weight env s))) [
        | inl k ↦ ground arith
        | inr k ↦
            let rest : weighted_from env n (suc i) drawn (sum + weight env s) stats ≡ some r =
              rw (weighted_from, k) at e in
            omega (arith, weighted_from-lt n (suc i) drawn (sum + weight env s) stats r rest)
      ]

-- The call and what it leaves of the pool.
abbrev pub Chooses : StrandPool → Pick × StrandPool → Type 0
Chooses p r = IsPick p r.0 × SamePool p r.1

pick_at-Chooses : (i : ℕ) (p : StrandPool) → Inv p → i < p.current_size → Chooses p (pick_at i p)
pick_at-Chooses i p v h = (pick_at-IsPick i p v h, pick_at-SamePool i p)

none_left : (p : StrandPool) → is_empty p.strands ≡ true → Chooses p (null, p)
none_left p e = (
  inl (e, refl),
  record {
    same_strands = refl;
    same_size = refl;
    same_ring = refl;
    same_config = refl;
    same_stats = refl;
  },
)

because : (p : StrandPool) (r r' : Pick × StrandPool) → r ≡ r' → Chooses p r' → Chooses p r
because p r r' e c = subst (Chooses p) (sym e) c

round_robin-Chooses : (p : StrandPool) → Inv p → Chooses p (round_robin_strand p)
unfolding round_robin_strand
round_robin-Chooses p v = elim (Bool-cases (is_empty p.strands)) [
  | inl e ↦ because p (round_robin_strand p) (null, p) (rw (round_robin_strand, e)) (none_left p e)
  | inr e ↦
      let some_left : 0 < p.current_size = v.counted e in
      let counted : (p.current_size == 0) ≡ false = ground arith in
      let q = record p { round_robin_index = (p.round_robin_index + 1) % 2 ^ 64 } in
      let i = p.round_robin_index % p.current_size in
      because p (round_robin_strand p) (pick_at i q) (rw (round_robin_strand, e, counted)) (
        pick_at-IsPick i p v (grind arith),
        record {
          same_strands = refl;
          same_size = refl;
          same_ring = refl;
          same_config = refl;
          same_stats = length-modify count_pick i p.strands_stats;
        },
      )
]

least_connections-Chooses : (p : StrandPool) → Inv p → Chooses p (least_connections_strand p)
unfolding least_connections_strand
least_connections-Chooses p v = elim (Bool-cases (is_empty p.strands)) [
  | inl e ↦
      because p (least_connections_strand p) (null, p) (rw (least_connections_strand, e))
        (none_left p e)
  | inr e ↦
      let i = least_index p.current_size p.strands_stats in
      because p (least_connections_strand p) (pick_at i p) (rw (least_connections_strand, e))
        (pick_at-Chooses i p v (least_index-lt p.current_size p.strands_stats (v.counted e)))
]

pub consistent_hash-Chooses :
    (h : ℕ) (p : StrandPool) → Inv p → Chooses p (consistent_hash_strand h p)
unfolding consistent_hash_strand
consistent_hash-Chooses h p v = elim (Bool-cases (is_empty p.strands)) [
  | inl e ↦
      because p (consistent_hash_strand h p) (null, p) (rw (consistent_hash_strand, e))
        (none_left p e)
  | inr e ↦
      let found =
        ring_index-inside h p.current_size p.hash_ring v.ring_inside (v.ring_full (v.counted e)) in
      because p (consistent_hash_strand h p) (pick_at found.0 p)
        (rw (consistent_hash_strand, e, found.1)) (pick_at-Chooses found.0 p v found.2)
]

-- What the generator promises: a number from 0 up to the bound.
abbrev pub Draws : Environment → Type 0
Draws env = (n : ℕ) → env.draw n ≤ n

module _ (env : Environment) (draws : Draws env) where
  random-Chooses : (p : StrandPool) → Inv p → Chooses p (random_strand env p)
  unfolding random_strand
  random-Chooses p v = elim (Bool-cases (is_empty p.strands)) [
    | inl e ↦ because p (random_strand env p) (null, p) (rw (random_strand, e)) (none_left p e)
    | inr e ↦
        let some_left : 0 < p.current_size = v.counted e in
        let bound = (p.current_size + 2 ^ 64 - 1) % 2 ^ 64 in
        let exact : bound + 1 ≡ p.current_size = omega (arith, v.fits) in
        because p (random_strand env p) (pick_at (env.draw bound) p) (rw (random_strand, e))
          (pick_at-Chooses (env.draw bound) p v (omega (arith, draws bound)))
  ]

  weighted-Chooses : (p : StrandPool) → Inv p → Chooses p (weightedround_robin_strand env p)
  unfolding weightedround_robin_strand
  weighted-Chooses p v =
      let total = total_weight env p.current_size p.strands_stats in
      elim (Bool-cases (is_empty p.strands)) [
        | inl e ↦
            because p (weightedround_robin_strand env p) (null, p)
              (rw (weightedround_robin_strand, e)) (none_left p e)
        | inr e ↦ elim (Bool-cases (total == 0)) [
          | inl z ↦
              because p (weightedround_robin_strand env p) (round_robin_strand p)
                (rw (weightedround_robin_strand, e, z)) (round_robin-Chooses p v)
          | inr z ↦
              elim (Option-cases
                (weighted_from env p.current_size 0 (env.draw (total - 1)) 0 p.strands_stats)) [
                  | inl q ↦
                      because p (weightedround_robin_strand env p) (round_robin_strand p)
                        (rw (weightedround_robin_strand, e, z, q)) (round_robin-Chooses p v)
                  | inr (i, q) ↦
                      because p (weightedround_robin_strand env p) (pick_at i p)
                        (rw (weightedround_robin_strand, e, z, q))
                        (pick_at-Chooses i p v (
                          omega (
                            arith,
                            weighted_from-lt env p.current_size 0 (env.draw (total - 1)) 0
                                p.strands_stats i q,
                          )))
                ]
        ]
      ]

  pub choose-Chooses :
      (strategy : LoadBalanceStrategy) (thread : ℕ) (p : StrandPool)
      → Inv p
      → Chooses p (choose env strategy thread p)
  unfolding choose
  choose-Chooses round_robin thread p v = round_robin-Chooses p v
  choose-Chooses least_connections thread p v = least_connections-Chooses p v
  choose-Chooses consistent_hash thread p v = consistent_hash-Chooses thread p v
  choose-Chooses at_random thread p v = random-Chooses p v
  choose-Chooses weighted_round_robin thread p v = weighted-Chooses p v

  -- With every strategy, `next_strand` gives a strand of the pool at an index below its size, or a
  -- null pointer exactly where the pool has none: it never divides by zero or reads behind the
  -- vector; the pool it leaves keeps its sizes.
  pub next_strand-IsPick :
      (thread : ℕ) (p : StrandPool)
      → Inv p
      → IsPick p (next_strand env thread p).0 × Inv (next_strand env thread p).1
  next_strand-IsPick thread p v =
      let c = choose-Chooses p.config.strategy thread p v in (c.0, SamePool-Inv p _ c.1 v)
