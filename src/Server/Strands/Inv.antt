-- ===== src/Server/Strands/Inv.antt =====
-- The sizes that a strand pool keeps, and the operations that keep them.
use foxhttp.Prelude.{
  ℕ, zero, suc, ◌+◌, ◌-◌, ◌^◌, ◌≤◌, ◌<◌, ◌≡◌, refl, ◌∙◌, inl, inr, true, false, ◌||◌, List, [], ◌∷◌,
  ◌++◌, append_assoc, arith, ltb, ◌==◌, if◌then◌else◌, ltb→lt, Bool-cases, length, take, is_empty,
  length-append, All, All-append, same, is_empty-append,
}
use foxhttp.Prelude.Sort.{All-sort_by, is_empty-sort_by}
use foxhttp.Server.Strands.{
  StrandPoolConfig, StrandPool, Environment, create_strand, create_strands, erase, remove_strand,
  remove_strands, modify, nodes_of, all_nodes, pair_before, virtual_node,
  update_consistent_hash_ring, new_pool, by_load, resize, update_config,
}

abbrev pub IsUsable : StrandPoolConfig → Type 0
IsUsable c = (0 < c.min_size) × (c.max_size < 2 ^ 64)

pub record Inv (p : StrandPool) : Type 0 where
  pub usable : IsUsable p.config
  pub same_sizes : length p.strands_stats ≡ length p.strands
  pub enough : p.current_size ≤ length p.strands
  pub counted : is_empty p.strands ≡ false → 0 < p.current_size
  pub fits : p.current_size < 2 ^ 64
  pub ring_inside : All (λ (e : ℕ × ℕ). e.1 < p.current_size) p.hash_ring
  pub ring_full : 0 < p.current_size → is_empty p.hash_ring ≡ false

pub length-modify {ℓ} :
    {A : Type ℓ} (f : A → A) (i : ℕ) (xs : List A) → length (modify f i xs) ≡ length xs
length-modify f i [] = refl
length-modify f zero (x ∷ xs) = refl
length-modify f (suc i) (x ∷ xs) = omega (arith, length-modify f i xs)

length-erase {ℓ} :
    {A : Type ℓ} (i : ℕ) (xs : List A) → i < length xs → length (erase i xs) + 1 ≡ length xs
length-erase i [] h = absurd (omega arith)
length-erase zero (x ∷ xs) h = omega arith
length-erase (suc i) (x ∷ xs) h = omega (arith, length-erase i xs (omega arith))

record Grown (n : ℕ) (p q : StrandPool) : Type 0 where
  config : q.config ≡ p.config
  strands : length q.strands ≡ length p.strands + n
  strands_stats : length q.strands_stats ≡ length p.strands_stats + n

create_strands-Grown : (n : ℕ) (p : StrandPool) → Grown n p (create_strands n p)
unfolding create_strands
create_strands-Grown zero p = record {
  config = refl;
  strands = omega arith;
  strands_stats = omega arith;
}
create_strands-Grown (suc n) p =
    let g = create_strands-Grown n (create_strand p) in
    record {
      config = g.config;
      strands = omega (arith, g.strands, length-append p.strands (p.strands_made ∷ []));
      strands_stats = omega (arith, g.strands_stats, length-append {0} p.strands_stats (_ ∷ []));
    }

record Shrunk (n : ℕ) (p q : StrandPool) : Type 0 where
  config : q.config ≡ p.config
  strands : length p.strands ≤ length q.strands + n
  strands_stats :
      length p.strands_stats ≡ length p.strands → length q.strands_stats ≡ length q.strands

remove_strand-Shrunk : (i : ℕ) (p : StrandPool) → Shrunk 1 p (remove_strand i p)
unfolding remove_strand
remove_strand-Shrunk i p = elim (Bool-cases (ltb i (length p.strands))) [
  | inl e ↦ rw e (record {
    config = refl;
    strands = omega (arith, length-erase i p.strands (ltb→lt _ _ e));
    strands_stats = λ same. omega (
      arith,
      length-erase i p.strands (ltb→lt _ _ e),
      length-erase i p.strands_stats (rw same (ltb→lt _ _ e)),
    );
  })
  | inr e ↦ rw e (record { config = refl; strands = omega arith; strands_stats = λ same. same })
]

remove_strands-Shrunk : (is : List ℕ) (p : StrandPool) → Shrunk (length is) p (remove_strands is p)
unfolding remove_strands
remove_strands-Shrunk [] p = record {
  config = refl;
  strands = omega arith;
  strands_stats = λ same. same;
}
remove_strands-Shrunk (i ∷ is) p =
    let g = remove_strand-Shrunk i p in
    let h = remove_strands-Shrunk is (remove_strand i p) in
    record {
      config = h.config ∙ g.config;
      strands = omega (arith, g.strands, h.strands);
      strands_stats = λ same. h.strands_stats (g.strands_stats same);
    }

length-take {ℓ} : {A : Type ℓ} (n : ℕ) (xs : List A) → length (take n xs) ≤ n
length-take zero xs = omega arith
length-take (suc n) [] = omega arith
length-take (suc n) (x ∷ xs) = omega (arith, length-take n xs)

pub length_of_full {ℓ} : {A : Type ℓ} (xs : List A) → is_empty xs ≡ false → 0 < length xs
length_of_full [] e = cc
length_of_full (x ∷ xs) e = omega arith

module _ (env : Environment) where
  nodes_of_inside : (n i j : ℕ) → i < n → All (λ (e : ℕ × ℕ). e.1 < n) (nodes_of env i j)
  unfolding nodes_of
  nodes_of_inside n i zero h = tt
  nodes_of_inside n i (suc j) h =
      All-append (λ (e : ℕ × ℕ). e.1 < n) (nodes_of env i j) _ (nodes_of_inside n i j h) (h, tt)

  all_nodes_inside : (n i : ℕ) → i ≤ n → All (λ (e : ℕ × ℕ). e.1 < n) (all_nodes env i)
  unfolding all_nodes
  all_nodes_inside n zero h = tt
  all_nodes_inside n (suc i) h =
      All-append (λ (e : ℕ × ℕ). e.1 < n) (all_nodes env i) _ (all_nodes_inside n i (omega arith))
        (nodes_of_inside n i 100 (omega arith))

  nodes_of_last : (i j : ℕ) → (e : ℕ × ℕ) × (nodes_of env i (suc j) ≡ nodes_of env i j ++ e ∷ [])
  unfolding nodes_of
  nodes_of_last i j = ((env.hash (virtual_node env i j), i), refl)

  all_nodes_full : (n : ℕ) → 0 < n → is_empty (all_nodes env n) ≡ false
  unfolding all_nodes
  all_nodes_full zero h = absurd (omega arith)
  all_nodes_full (suc i) h =
      let (e, q) = nodes_of_last i 99 in
      rw q (
        rw (← append_assoc (all_nodes env i) (nodes_of env i 99) (e ∷ []))
          (is_empty-append (all_nodes env i ++ nodes_of env i 99) [] e))

  rebuilt-Inv :
      (n : ℕ) (q : StrandPool)
      → IsUsable q.config
      → length q.strands_stats ≡ length q.strands
      → n ≤ length q.strands
      → (is_empty q.strands ≡ false → 0 < n)
      → n < 2 ^ 64
      → Inv (update_consistent_hash_ring env (record q { current_size = n }))
  unfolding update_consistent_hash_ring
  rebuilt-Inv n q usable same enough counted fits = record {
    usable = usable;
    same_sizes = same;
    enough = enough;
    counted = counted;
    fits = fits;
    ring_inside =
        All-sort_by (pair_before env) (λ (e : ℕ × ℕ). e.1 < n) (all_nodes env n)
          (all_nodes_inside n n (omega arith));
    ring_full = λ h. is_empty-sort_by (pair_before env) (all_nodes env n) ∙ all_nodes_full n h;
  }

  pub new_pool-Inv :
      (c : StrandPoolConfig) → IsUsable c → c.initial_size < 2 ^ 64 → Inv (new_pool env c)
  unfolding new_pool
  new_pool-Inv c usable fits =
      let blank : StrandPool = record {
        config = c;
        strands = [];
        strands_stats = [];
        current_size = 0;
        round_robin_index = 0;
        hash_ring = [];
        strands_made = 0;
      } in
      let g = create_strands-Grown c.initial_size blank in
      let q = create_strands c.initial_size blank in
      rebuilt-Inv c.initial_size q (rw g.config usable) (omega (arith, g.strands, g.strands_stats))
        (omega (arith, g.strands)) (λ full. omega (arith, length_of_full q.strands full, g.strands))
        fits

  grow-Inv :
      (n : ℕ) (p : StrandPool)
      → Inv p
      → 0 < n
      → n < 2 ^ 64
      → Inv (
          update_consistent_hash_ring env
            (record (create_strands (n - p.current_size) p) { current_size = n }))
  grow-Inv n p v some_left fits =
      let g = create_strands-Grown (n - p.current_size) p in
      rebuilt-Inv n (create_strands (n - p.current_size) p) (rw g.config v.usable)
        (omega (arith, g.strands, g.strands_stats, v.same_sizes))
        (omega (arith, g.strands, v.enough)) (λ full. some_left) fits

  shrink-Inv :
      (n : ℕ) (p : StrandPool) (is : List ℕ)
      → Inv p
      → 0 < n
      → n < p.current_size
      → Inv (
          update_consistent_hash_ring env
            (record (remove_strands (take (p.current_size - n) is) p) { current_size = n }))
  shrink-Inv n p is v some_left less =
      let removed = take (p.current_size - n) is in
      let g = remove_strands-Shrunk removed p in
      rebuilt-Inv n (remove_strands removed p) (rw g.config v.usable) (g.strands_stats v.same_sizes)
        (omega (arith, g.strands, v.enough, length-take (p.current_size - n) is))
        (λ full. some_left) (omega (arith, v.fits))

  pub resize-Inv : (n : ℕ) (p : StrandPool) → Inv p → Inv (resize env n p).1
  unfolding resize
  resize-Inv n p v = elim (Bool-cases (ltb n p.config.min_size || ltb p.config.max_size n)) [
    | inl bad ↦ rw bad v
    | inr good ↦
        let some_left : 0 < n = ground (arith, v.usable) in
        let fits : n < 2 ^ 64 = ground (arith, v.usable) in
        elim (Bool-cases (n == p.current_size)) [
          | inl equal ↦ rw (good, equal) v
          | inr other ↦ elim (Bool-cases (ltb p.current_size n)) [
            | inl more ↦ rw (good, other, more) (grow-Inv n p v some_left fits)
            | inr fewer ↦
                rw (good, other, fewer) (shrink-Inv n p (by_load env p) v some_left (ground arith))
          ]
        ]
  ]

  pub update_config-Inv :
      (c : StrandPoolConfig) (p : StrandPool) → IsUsable c → Inv p → Inv (update_config env c p).1
  unfolding update_config
  update_config-Inv c p usable v =
      let q : Inv (record p { config = c }) = ground arith in
      elim (c.initial_size == p.current_size)
        as (λ b.
          Inv
            (if b
              then (true, record p { config = c })
              else resize env c.initial_size (record p { config = c })).1) [
                | true ↦ q
                | false ↦ resize-Inv c.initial_size (record p { config = c }) q
              ]
