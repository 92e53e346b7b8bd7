-- ===== src/Server/Strands/Least.antt =====
-- The strategy of the fewest active requests.
use foxhttp.Prelude.{
  ℕ, zero, suc, ◌+◌, ◌-◌, ◌≤◌, ◌<◌, ◌≡◌, refl, sym, ap, ◌∙◌, subst, ◌⊎◌, inl, inr, true, false,
  ◌&&◌, none, some, List, [], ◌∷◌, arith, ltb, ltb→lt, Bool-cases, length, get_elem?, is_empty,
}
use foxhttp.Server.Strands.{
  StrandStats, StrandPool, strand, least_from, least_index, least_connections_strand,
}
use foxhttp.Server.Strands.Inv.{Inv, length_of_full}
use foxhttp.Server.Strands.Choice.{get_elem?-lt, pick_at_lem, least_index-lt}

module _ (all : List StrandStats) where
  -- Strand `best` has no more active requests than any healthy strand below `n`, and is healthy
  -- unless it is the first.
  pub record IsLeast (n best : ℕ) : Type 0 where
    pub stats : StrandStats
    pub found : get_elem? all best ≡ some stats
    pub lower :
        (k : ℕ) (s : StrandStats)
        → k < n
        → get_elem? all k ≡ some s
        → s.is_healthy ≡ true
        → stats.active_requests ≤ s.active_requests
    pub usable : (best ≡ 0) ⊎ (stats.is_healthy ≡ true)

  -- The entries from `i` on.
  Rest : ℕ → List StrandStats → Type 0
  Rest i stats = (j : ℕ) → get_elem? all (i + j) ≡ get_elem? stats j

  Rest-tail :
      (i : ℕ) (s : StrandStats) (stats : List StrandStats) → Rest i (s ∷ stats) → Rest (suc i) stats
  unfolding Rest
  Rest-tail i s stats h j = let e : suc i + j ≡ i + suc j = omega arith in rw e (h (suc j))

  Rest-head :
      (i : ℕ) (s : StrandStats) (stats : List StrandStats)
      → Rest i (s ∷ stats)
      → get_elem? all i ≡ some s
  unfolding Rest
  Rest-head i s stats h = let e : i + 0 ≡ i = omega arith in rw e at (h 0)

  Rest-nil : (i k : ℕ) → Rest i [] → i ≤ k → get_elem? all k ≡ none
  unfolding Rest
  Rest-nil i k h l = let e : i + (k - i) ≡ k = omega arith in rw e at (h (k - i))

  -- One strand more.
  below_suc :
      (bound i : ℕ) (s : StrandStats)
      → ((k : ℕ) (t : StrandStats)
          → k < i
          → get_elem? all k ≡ some t
          → t.is_healthy ≡ true
          → bound ≤ t.active_requests)
      → get_elem? all i ≡ some s
      → (s.is_healthy ≡ true → bound ≤ s.active_requests)
      → (k : ℕ) (t : StrandStats) → k < suc i
      → get_elem? all k ≡ some t
      → t.is_healthy ≡ true
      → bound ≤ t.active_requests
  below_suc bound i s lower e h k t l g healthy = elim (Bool-cases (ltb k i)) [
    | inl before ↦ lower k t (ltb→lt k i before) g healthy
    | inr last ↦
        let q : k ≡ i = ground arith in
        let one : some s ≡ some t = sym e ∙ ap (get_elem? all) (sym q) ∙ g in ground (arith, h)
  ]

  keep_best :
      (i best : ℕ) (s : StrandStats)
      → (b : IsLeast i best) → get_elem? all i ≡ some s
      → (s.is_healthy ≡ true → b.stats.active_requests ≤ s.active_requests)
      → IsLeast (suc i) best
  keep_best i best s b e h = record {
    stats = b.stats;
    found = b.found;
    lower = below_suc b.stats.active_requests i s b.lower e h;
    usable = b.usable;
  }

  new_best :
      (i best : ℕ) (s : StrandStats)
      → (b : IsLeast i best) → get_elem? all i ≡ some s
      → s.active_requests < b.stats.active_requests
      → s.is_healthy ≡ true
      → IsLeast (suc i) i
  new_best i best s b e less healthy = record {
    stats = s;
    found = e;
    lower =
        below_suc s.active_requests i s (λ k t l g h. omega (arith, b.lower k t l g h)) e
          (λ h. omega arith);
    usable = inr healthy;
  }

  least_from-IsLeast :
      (n i best least : ℕ) (stats : List StrandStats) (b : IsLeast i best)
      → b.stats.active_requests ≡ least
      → Rest i stats
      → IsLeast (i + n) (least_from n i best least stats)
  unfolding least_from new_best keep_best
  least_from-IsLeast zero i best least stats b e r = let q : i + 0 ≡ i = omega arith in rw q b
  least_from-IsLeast (suc n) i best least [] b e r = record {
    stats = b.stats;
    found = b.found;
    lower = λ k t l g h. elim (Bool-cases (ltb k i)) [
      | inl before ↦ b.lower k t (ltb→lt k i before) g h
      | inr behind ↦
          let gone : get_elem? all k ≡ none = Rest-nil i k r (ground arith) in absurd (cc)
    ];
    usable = b.usable;
  }
  least_from-IsLeast (suc n) i best least (s ∷ stats) b e r =
      let here = Rest-head i s stats r in
      let later = Rest-tail i s stats r in
      let q : i + suc n ≡ suc i + n = omega arith in
      rw q (elim (Bool-cases (ltb s.active_requests least && s.is_healthy)) [
        | inl t ↦
            rw (least_from, t)
              (least_from-IsLeast n (suc i) i s.active_requests stats
                (new_best i best s b here (ground arith) (ground arith)) refl later)
        | inr t ↦
            rw (least_from, t)
              (least_from-IsLeast n (suc i) best least stats
                (keep_best i best s b here (λ h. ground arith)) e later)
      ])

first_IsLeast : (s : StrandStats) (stats : List StrandStats) → IsLeast (s ∷ stats) 1 0
first_IsLeast s stats = record {
  stats = s;
  found = refl;
  lower = λ k t l g h.
      let q : k ≡ 0 = omega arith in
      let one : some s ≡ some t = ap (get_elem? (s ∷ stats)) (sym q) ∙ g in ground arith;
  usable = inl refl;
}

least_index-IsLeast :
    (size : ℕ) (stats : List StrandStats)
    → 0 < size
    → 0 < length stats
    → IsLeast stats size (least_index size stats)
unfolding first_IsLeast Rest
least_index-IsLeast size [] h l = absurd (omega arith)
least_index-IsLeast size (s ∷ stats) h l =
    let q : 1 + (size - 1) ≡ size = omega arith in
    let rest : Rest (s ∷ stats) 1 stats = λ j. let e : 1 + j ≡ suc j = omega arith in rw e in
    subst (λ n. IsLeast (s ∷ stats) n (least_index size (s ∷ stats))) q
      (least_from-IsLeast (s ∷ stats) (size - 1) 1 0 s.active_requests stats (first_IsLeast s stats)
        refl rest)

-- A pool with strands gives, by fewest connections, a strand with no more active requests than any
-- healthy strand of the pool; it is healthy itself, unless it is the first.
pub least_connections-IsLeast :
    (p : StrandPool)
    → Inv p
    → is_empty p.strands ≡ false
    → (b : ℕ) × (s : ℕ) × IsLeast p.strands_stats p.current_size b
      × (get_elem? p.strands b ≡ some s)
      × ((least_connections_strand p).0 ≡ strand s)
unfolding least_connections_strand
least_connections-IsLeast p v full =
    let b = least_index p.current_size p.strands_stats in
    let found =
      get_elem?-lt b p.strands
        (omega (arith, v.enough, least_index-lt p.current_size p.strands_stats (v.counted full))) in
    (
      b,
      found.0,
      least_index-IsLeast p.current_size p.strands_stats (v.counted full)
          (omega (arith, v.same_sizes, length_of_full p.strands full)),
      found.1,
      rw (least_connections_strand, full) (pick_at_lem b p found.0 found.1),
    )
