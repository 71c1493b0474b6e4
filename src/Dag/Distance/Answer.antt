-- ===== src/Dag/Distance/Answer.antt =====
-- The distance from the main chain is found, and is the lowest height at which the branch leaves it.
use xelis_blockchain.Prelude.{
  ℕ, zero, suc, ◌-◌, ◌^◌, ◌≤◌, ◌<◌, ◌≡◌, refl, sym, ap, ◌∙◌, subst, ◌⊎◌, inl, inr, true, some, List,
  [], ◌∷◌, arith, Bool-cases, length, false,
}
use xelis_blockchain.Prelude.Results.{
  ok, err, ◌>>=◌, ok_injective, Returns, if_returns, >>=_returns,
}
use xelis_blockchain.Prelude.Equality.{Eq, contains, beq_refl}
use xelis_blockchain.Dag.{Provider, Ask, extend, false}
use xelis_blockchain.Dag.Compare.{In}
use xelis_blockchain.Dag.Weight.{load, load_push, load_some, weight, load-one}
use xelis_blockchain.Dag.Distance.{
  scan_tips, lowest_loop, calculate_distance_from_mainchain, find_lowest_height_from_mainchain,
}
use xelis_blockchain.Dag.Distance.Lowest.{
  Branch, self, along, IsRoot, Scanned, scanned, Inv, Inv-skip, Inv-scan,
}

module _ {K E : Type 0} ⦃e : Eq K⦄ (p : Provider K E) (hash : K) where
  -- The blocks of the branch: the storage has their tips, at most `most` of lower rank, and their heights.
  pub record IsBounded (rank : K → ℕ) (most : ℕ) : Type 0 where
    pub past : (y : K) → Branch p hash y → Returns (p.get_past_blocks_for_block_hash y)
    pub few :
        (y : K) (tips : List K)
        → Branch p hash y
        → p.get_past_blocks_for_block_hash y ≡ ok tips
        → length tips ≤ most
    pub rising :
        (y t : K) (tips : List K)
        → Branch p hash y
        → p.get_past_blocks_for_block_hash y ≡ ok tips
        → In tips t
        → rank t < rank y
    pub heights :
        (t : K) → p.is_block_topological_ordered t ≡ true → Returns (p.get_height_for_block_hash t)

  -- No block of the branch leaves the main chain lower, and one leaves it there, unless none leaves it.
  pub record IsLowest (n : ℕ) : Type 0 where
    pub least : (t : K) (m : ℕ) → IsRoot p hash t m → n ≤ m
    pub attained : (n ≡ 2 ^ 64 - 1) ⊎ ((t : K) × IsRoot p hash t n)

  all_processed :
      (low : ℕ) (processed : List K)
      → Inv p hash low processed []
      → (y : K) → Branch p hash y
      → In processed y
  all_processed low processed i y self = ground (arith, i.started)
  all_processed low processed i y (along {y = x} tips b q m o) =
      ground (arith, i.followed x y tips (all_processed low processed i x b) q m o)

  end-IsLowest : (low : ℕ) (processed : List K) → Inv p hash low processed [] → IsLowest low
  end-IsLowest low processed i = record {
    least = λ t m r.
        i.below r.block t r.tips m (all_processed low processed i r.block r.branch) r.past r.inside
          r.ordered r.at_height;
    attained = i.attained;
  }

  module _ (rank : K → ℕ) (most : ℕ) (bound : IsBounded rank most) where
    scan_returns : (ts : List K) (low : ℕ) (stack : List K) → Returns (scan_tips p ts low stack)
    unfolding scan_tips
    scan_returns [] low stack = (_, refl)
    scan_returns (t ∷ ts) low stack = elim (Bool-cases (p.is_block_topological_ordered t)) [
      | inl o ↦
          let (n, q) = bound.heights t o in
          if_returns (p.is_block_topological_ordered t) (>>=_returns _ q (scan_returns ts _ stack))
            (scan_returns ts low (t ∷ stack))
      | inr o ↦ let (next, q) = scan_returns ts low (t ∷ stack) in (next, rw (o, scan_tips) q)
    ]

    scan_load :
        (x : K) (stack tips : List K) (low : ℕ) (next : ℕ × List K)
        → Branch p hash x
        → p.get_past_blocks_for_block_hash x ≡ ok tips
        → Scanned p tips low stack next
        → load most rank next.1 < load most rank (x ∷ stack)
    scan_load x stack tips low next b q s =
        subst (λ l. load most rank l < load most rank (x ∷ stack)) (sym s.split)
          (load_push most rank x s.top stack (λ y m. bound.rising x y tips b q (s.from_tips y m).0)
            (omega (arith, s.few, bound.few x tips b q)))

    loop_answers :
        (fuel low : ℕ) (processed stack : List K)
        → Inv p hash low processed stack
        → load most rank stack ≤ fuel
        → (n : ℕ) × (lowest_loop p fuel low processed stack ≡ some (ok n)) × IsLowest n
    unfolding lowest_loop
    loop_answers zero low processed [] i h = (low, refl, end-IsLowest low processed i)
    loop_answers (suc fuel) low processed [] i h = (low, refl, end-IsLowest low processed i)
    loop_answers zero low processed (x ∷ stack) i h =
        absurd (omega (arith, h, load_some most rank x stack))
    loop_answers (suc fuel) low processed (x ∷ stack) i h =
        elim (Bool-cases (contains x processed)) [
          | inl m ↦
              let (n, q, r) =
                loop_answers fuel low processed stack (Inv-skip p hash low processed x stack m i)
                  (omega (arith, h, load_more x stack)) in
              (n, rw (m, lowest_loop) q, r)
          | inr m ↦
              let b = i.waits x (ground (arith, beq_refl e x)) in
              let (tips, q) = bound.past x b in
              let (next, k) = scan_returns tips low stack in
              let s = scanned p tips low stack next k in
              let (n, g, r) =
                loop_answers fuel next.0 (extend processed (x ∷ [])) next.1
                  (Inv-scan p hash low processed x stack tips next i q s)
                  (omega (arith, h, scan_load x stack tips low next b q s)) in
              (
                n,
                rw (m, lowest_loop)
                    (after _ next n (ap (λ a. a >>= λ ts. scan_tips p ts low stack) q ∙ k) g),
                r,
              )
        ]
      where
        load_more : (y : K) (ys : List K) → load most rank ys < load most rank (y ∷ ys)
        load_more y ys = load_push most rank y [] ys (λ z m. cc m) (omega arith)

        after :
            (r : Ask E (ℕ × List K)) (next : ℕ × List K) (n : ℕ)
            → r ≡ ok next
            → lowest_loop p fuel next.0 (extend processed (x ∷ [])) next.1 ≡ some (ok n)
            → elim r [
              | err failure ↦ some (err failure)
              | ok next ↦ lowest_loop p fuel next.0 (extend processed (x ∷ [])) next.1
            ]
              ≡ some (ok n)
        after (err failure) next n q g = cc q
        after (ok a) next n q g =
            ap (λ z. lowest_loop p fuel z.0 (extend processed (x ∷ [])) z.1) (ok_injective refl q)
            ∙ g

    start-Inv : Inv p hash (2 ^ 64 - 1) [] (hash ∷ [])
    start-Inv = record {
      waits = λ y m. subst (Branch p hash) ((e.beq_iff hash y).0 (ground (arith, m))) self;
      below = λ y t tips n a. cc a;
      followed = λ y t tips a. cc a;
      started = inr (ground (arith, beq_refl e hash));
      attained = inl refl;
    }

    -- With the weight of the hash as fuel there is an answer: the height of a block that is ordered, and
    -- otherwise the lowest height of an ordered tip of its branch, which is the block and the tips that
    -- are not ordered, or the greatest number of `u64` where there is no ordered tip. The storage has the
    -- tips of the branch, at most `most` and of lower ranks, and the heights of the ordered blocks.
    pub calculate_distance-IsLowest :
        (fuel : ℕ)
        → weight most (rank hash) ≤ fuel
        → (n : ℕ) × (calculate_distance_from_mainchain p fuel hash ≡ some (ok n))
          × ((p.is_block_topological_ordered hash ≡ true)
                × (p.get_height_for_block_hash hash ≡ ok n)
              ⊎ (p.is_block_topological_ordered hash ≡ false) × IsLowest n)
    unfolding calculate_distance_from_mainchain find_lowest_height_from_mainchain
    calculate_distance-IsLowest fuel h = elim (Bool-cases (p.is_block_topological_ordered hash)) [
      | inl o ↦
          let (n, q) = bound.heights hash o in
          (n, rw (o, calculate_distance_from_mainchain) (ap some q), inl (o, q))
      | inr o ↦
          let (n, q, low) =
            loop_answers fuel (2 ^ 64 - 1) [] (hash ∷ []) start-Inv
              (omega (arith, h, load-one most rank hash)) in
          (n, rw (o, calculate_distance_from_mainchain) q, inr (o, low))
    ]
